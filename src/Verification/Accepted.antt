-- ===== src/Verification/Accepted.antt =====
-- The verdicts of each reported kind of transaction.
use sportystake.Base.{
  ◌≡◌, refl, sym, ◌∙◌, inl, inr, if◌then◌else◌, not, Option, List, [], ◌∷◌, arith, Text, codes,
  Bool-cases, Option-cases,
}
use sportystake.Verification.{
  Checked, ok, refused, ◌>>=◌, Receipt, Decoded, same_address, is_sent_to, or_refused, or_second,
  get_confirmed_receipt, confirm, decode_log, event_not_found, sender_mismatch, BettingArgs,
  VerifiedBetPlacement, VerifiedParlayPlacement, VerifiedClaim, ClaimEvent, claim_event_name,
  verify_bet_placed, verify_parlay_placed, verify_claim,
}
use sportystake.Verification.Laws.{IsVerdict, verified, by_steps}
use sportystake.Verification.Liquidity.{
  PoolArgs, VerifiedDeposit, VerifiedWithdrawal, require_lp, verify_deposit,
  verify_withdrawal_requested, verify_withdrawal_executed,
}
use sportystake.Verification.CasinoHouse.{
  BetReceivedArgs, check_log, check_logs, verify_casino_bet_placed,
}
use sportystake.Verification.CrashGame.{
  CrashArgs, VerifiedJoin, VerifiedCashout, require_player, verify_round_joined, verify_cashed_out,
  verify_payout_claimed,
}

abbrev pub placement_of : BettingArgs → VerifiedBetPlacement
placement_of args = record {
  bet_id = args.bet_id;
  market_id = args.market_id;
  bettor = args.bettor;
  outcome = args.outcome;
  amount = args.amount;
  potential_payout = args.potential_payout;
  odds_x1000 = args.odds_x1000;
}

abbrev pub parlay_of : BettingArgs → VerifiedParlayPlacement
parlay_of args = record {
  parlay_id = args.parlay_id;
  bettor = args.bettor;
  market_ids = args.market_ids;
  outcomes = args.outcomes;
  stake = args.stake;
  potential_payout = args.potential_payout;
  combined_odds_x1000 = args.combined_odds_x1000;
}

abbrev pub claim_of : BettingArgs → VerifiedClaim
claim_of args = record {
  id = or_second args.bet_id args.parlay_id;
  amount = or_second args.amount args.payout;
}

abbrev pub deposit_of : PoolArgs → VerifiedDeposit
deposit_of args = record { usdc_amount = args.usdc_amount; shares_minted = args.shares_minted }

abbrev pub withdrawal_of : PoolArgs → VerifiedWithdrawal
withdrawal_of args = record { shares_burned = args.shares_burned; usdc_out = args.usdc_out }

abbrev pub join_of : CrashArgs → VerifiedJoin
join_of args = record {
  round_id = args.round_id;
  amount = args.amount;
  auto_cashout_x100 = args.auto_cashout_x100;
}

abbrev pub cashout_of : CrashArgs → VerifiedCashout
cashout_of args = record { round_id = args.round_id; multiplier_x100 = args.multiplier_x100 }

module _ {Log : Type 0} (contract : Text) (found : Option (Receipt Log)) (expected : Text) where
  -- A reported bet, parlay or claim is refused with the error of the first test that it fails: the
  -- receipt is there, the transaction succeeded, it was sent to the contract, it has an event of the
  -- kind, and the first such event is the signed-in wallet's; if it fails none, the result is what
  -- that event says.
  pub verify_betting-Verdict :
      (decode : Log → Option (Decoded BettingArgs)) (event : ClaimEvent)
      → IsVerdict decode
          (λ args. args.bettor)
          contract
          found
          (codes "BetPlaced")
          expected
          placement_of
          (verify_bet_placed decode contract found expected)
        × IsVerdict decode
            (λ args. args.bettor)
            contract
            found
            (codes "ParlayPlaced")
            expected
            parlay_of
            (verify_parlay_placed decode contract found expected)
        × IsVerdict decode
            (λ args. args.bettor)
            contract
            found
            (claim_event_name event)
            expected
            claim_of
            (verify_claim decode contract found event expected)
  unfolding verify_bet_placed verify_parlay_placed verify_claim verified
  verify_betting-Verdict decode event = (
    by_steps decode (λ args. args.bettor) contract found (codes "BetPlaced") expected placement_of _
        (ground arith),
    by_steps decode (λ args. args.bettor) contract found (codes "ParlayPlaced") expected parlay_of _
        (ground arith),
    by_steps decode (λ args. args.bettor) contract found (claim_event_name event) expected claim_of
        _ (ground arith),
  )

  -- A reported deposit, withdrawal request or withdrawal is refused with the error of the first test
  -- that it fails, in the order of the tests of a bet, and else is what its first event says.
  pub verify_pool-Verdict :
      (decode : Log → Option (Decoded PoolArgs))
      → IsVerdict decode
          (λ args. args.lp)
          contract
          found
          (codes "Deposited")
          expected
          deposit_of
          (verify_deposit decode contract found expected)
        × IsVerdict decode
            (λ args. args.lp)
            contract
            found
            (codes "WithdrawalRequested")
            expected
            (λ args. args.unlock_at)
            (verify_withdrawal_requested decode contract found expected)
        × IsVerdict decode
            (λ args. args.lp)
            contract
            found
            (codes "WithdrawalExecuted")
            expected
            withdrawal_of
            (verify_withdrawal_executed decode contract found expected)
  unfolding verify_deposit verify_withdrawal_requested verify_withdrawal_executed verified
      require_lp
  verify_pool-Verdict decode = (
    by_steps decode (λ args. args.lp) contract found (codes "Deposited") expected deposit_of _
        (ground arith),
    by_steps decode (λ args. args.lp) contract found (codes "WithdrawalRequested") expected
        (λ args. args.unlock_at) _ (ground arith),
    by_steps decode (λ args. args.lp) contract found (codes "WithdrawalExecuted") expected
        withdrawal_of _ (ground arith),
  )

  -- The same of a reported join, cash-out or payout of the crash game.
  pub verify_crash-Verdict :
      (decode : Log → Option (Decoded CrashArgs))
      → IsVerdict decode
          (λ args. args.player)
          contract
          found
          (codes "PlayerJoined")
          expected
          join_of
          (verify_round_joined decode contract found expected)
        × IsVerdict decode
            (λ args. args.player)
            contract
            found
            (codes "PlayerCashedOut")
            expected
            cashout_of
            (verify_cashed_out decode contract found expected)
        × IsVerdict decode
            (λ args. args.player)
            contract
            found
            (codes "PayoutClaimed")
            expected
            (λ args. args.amount)
            (verify_payout_claimed decode contract found expected)
  unfolding verify_round_joined verify_cashed_out verify_payout_claimed verified require_player
  verify_crash-Verdict decode = (
    by_steps decode (λ args. args.player) contract found (codes "PlayerJoined") expected join_of _
        (ground arith),
    by_steps decode (λ args. args.player) contract found (codes "PlayerCashedOut") expected
        cashout_of _ (ground arith),
    by_steps decode (λ args. args.player) contract found (codes "PayoutClaimed") expected
        (λ args. args.amount) _ (ground arith),
  )

bind_ok : {A : Type 0} (c : Checked A) → (c >>= λ a. ok a) ≡ c
bind_ok (ok a) = refl
bind_ok (refused e) = refl

check_logs-verified :
    {Log : Type 0} (decode : Log → Option (Decoded BetReceivedArgs)) (expected : Text)
    (logs : List Log)
    → check_logs decode expected logs ≡ (
        or_refused (decode_log decode logs (codes "BetReceived")) event_not_found >>= λ args.
        if not (same_address args.player expected) then refused sender_mismatch else ok args)
unfolding check_logs check_log decode_log
check_logs-verified decode expected [] = refl
check_logs-verified decode expected (log ∷ logs) =
    ground (arith, check_logs-verified decode expected logs)

-- The check of a casino bet, whose loop over the logs stops at the first event that tells, comes to
-- the same verdicts as those of the other contracts, on the receipt that was read or awaited.
pub verify_casino_bet_placed-Verdict :
    {Log : Type 0} (contract : Text) (at_once awaited : Option (Receipt Log)) (expected : Text)
    (decode : Log → Option (Decoded BetReceivedArgs))
    → IsVerdict decode
        (λ args. args.player)
        contract
        (or_second at_once awaited)
        (codes "BetReceived")
        expected
        (λ args. args)
        (verify_casino_bet_placed decode contract at_once awaited expected)
unfolding verify_casino_bet_placed verified get_confirmed_receipt confirm
verify_casino_bet_placed-Verdict contract at_once awaited expected decode =
    let found = or_second at_once awaited in
    by_steps decode (λ args. args.player) contract found (codes "BetReceived") expected
      (λ args. args) _
      (elim (Option-cases found) [
        | inl n ↦ rw n refl
        | inr (r, f) ↦ elim (Bool-cases r.success) [
          | inr u ↦ rw (f, u) refl
          | inl s ↦ elim (Bool-cases (is_sent_to contract r.sent_to)) [
            | inr u ↦ rw (f, s, u) refl
            | inl t ↦ rw (f, s, t) (bind_ok _ ∙ sym (check_logs-verified decode expected r.logs))
          ]
        ]
      ])
