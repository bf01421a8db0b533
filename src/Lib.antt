-- ===== src/Lib.antt =====
-- SportyStake, a sports book and casino that settles in USDC on a chain: the settlement of bets, the
-- games of the casino, the crash game, the checks of reported transactions, the live feed, the odds and
-- fixtures of the providers, the bet slip and its booking codes, the welcome bonus, and the budget of
-- requests for odds.
--
-- A bet is a row of the table Bet, a parlay has legs, and all of them point to a market. When a game
-- ends, the settlement worker gets a message with the score. It stores the score, plans which bets win
-- and which are refunded, holds back a market that could cost too much, and otherwise makes the
-- transactions and reconciles the tables. The casino draws from an HMAC of secret and public seeds,
-- and a natural win that the house cannot pay is remapped to a draw that loses. The message that a game
-- has ended comes from the live feed: mostly a match just leaves it, and its last score is taken for the
-- final one. A bet of the casino is made on the chain first; the server reads the receipt that a
-- client names, draws, settles on the chain and writes the row. The crash game runs in rounds that a
-- worker starts, locks and resolves on the chain.
--
--   Base          lists, text, tests on numbers, rows that are found by a key
--   Settlement    src/lib/server/settlement.ts and what it calls
--     Outcome     the resolvers: resolve1X2 is resolve_1x2, resolveOverUnderKey is
--                 resolve_over_under_key, and so on; Outcome/Handicap has resolveAsianHandicapBet
--     Tables      the rows of bets, and the updates of src/lib/server/repos/bets.repo.ts
--     Plan        planScoreBasedSettlement, planDirectOutcomeSettlement
--     Parlay      reconcileParlayLegsForMarket
--     Execute     executeMarketSettlement, cancelMarketOnchain
--     Worker      the handler of src/workers/settlement.worker.ts, with the liability check of
--                 src/lib/server/settlementRisk.ts
--     Sweep       settleFinishedMarketsWithPendingBets
--   Casino        src/lib/server/casino.ts and what it calls
--     Draws       uniformIndex, weightedCellIndex, diceRoll, rouletteNumber of
--                 src/lib/server/provably-fair.ts
--     Dice, Slots, Roulette, Baccarat
--                 resolveDice, resolveSlots, resolveRoulette, resolveBaccarat
--     Blackjack   the rules of src/lib/server/blackjackEngine.ts; Blackjack/Hand has
--                 finishBlackjackHand of src/lib/server/blackjackResolution.ts and the handlers of
--                 src/app/api/casino/blackjack/{deal,action}/route.ts
--     Onchain, BetRoute
--                 settleCasinoBetOnchain of src/lib/server/casinoOnchain.ts, and the handler of
--                 src/app/api/casino/bet/route.ts
--   Crash         the crash game
--     Point       onchainCrashMultiplierX100 of src/lib/server/crashMath.ts
--     Bets        the rows of bets: src/app/api/casino/crash/{join,cashout}/route.ts, and the
--                 reconciliation in src/workers/crash-scheduler.worker.ts
--     Rounds      runRound, recoverStuckRounds and the history of that worker
--   Verification  src/lib/server/betVerification.ts; its children have liquidityVerification.ts,
--                 casinoVerification.ts and crashVerification.ts
--   Tracking      packages/oracle/src/jobs/live-tracking.ts; Poller has live-poller.job.ts, with
--                 its guard against runs that overlap
--   Normalizer    packages/oracle/src/normalizers: odds.normalizer.ts, scrape.normalizer.ts
--   BetSlip       src/lib/betSlipStore.ts: the selections of the slip
--   Booking       src/lib/server/bookingCode.ts and the routes src/app/api/betslip/book
--   Bonus         src/lib/server/bonusEngine.ts: the credit, the check of a bonus bet, its settlement
--   Quota         packages/oracle/src/quota/quota-budget-manager.ts: the hourly budget of requests
--
-- A table is a list of records with the columns that the code reads or writes, and a query or an
-- update walks it. Ids are only compared, so they are numbers. Text is a list of code units. A
-- transaction is a parameter: for each call that the code can make, the hash or the error message that
-- it comes to. A function that throws returns the tables as they are then. A handicap line is kept as
-- the exact decimal that its label spells, and amounts are whole numbers of the smallest unit.
--
-- The digest is a parameter, and a draw that rejects all windows of a digest tries the next key, so
-- that draws run on fuel, one unit for a digest: as much as there are digests to try is enough. The
-- blackjack dealer runs on 18 rounds, which are enough. Everything else is structural recursion.
-- Requests to the casino come one after the other. The runs of the live job may overlap, and so may the
-- requests on a hand of blackjack in Casino/Blackjack/Hand/Race; in the other files on hands they take turns.
--
-- An entry of the cache of the live job is gone when its time is over, and calls of the cache do not
-- fail. A call of the crash contract that is mined has a receipt, whether it is reverted or not.
--
-- Date.parse and parseFloat of JavaScript are parameters, and so are the decoders of logs, the hashes
-- and the receipts, which the chain client gives.
--
-- Not modelled: log lines, network and cache access, sign-in and rate limits, the contracts, pages and
-- components, the worker that writes markets, the length of the crash flight (a logarithm), and the
-- conversion of amounts from and to text.
pub mod Base
pub mod BetSlip
pub mod Booking
pub mod Bonus
pub mod Casino
pub mod Crash
pub mod Normalizer
pub mod Quota
pub mod Settlement
pub mod Tracking
pub mod Verification
