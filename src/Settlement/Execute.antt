-- ===== src/Settlement/Execute.antt =====
-- `executeMarketSettlement` and `cancelMarketOnchain` (src/lib/server/settlement.ts). The chain and
-- the operator's wallet are not part of the program: what a transaction comes to is a parameter, for
-- each call that the code can make, and an error is its message. Log lines and time stamps are left
-- out.
pub mod Final
pub mod Voids
pub mod Laws
use sportystake.Base.{
  ℕ, ◌+◌, Bool, true, false, ◌&&◌, ◌||◌, Option, none, some, List, [], ◌∷◌, ◌++◌, map, ◌==◌,
  if◌then◌else◌, ltb, Text, codes, includes, length,
}
use sportystake.Settlement.Tables.{
  BetStatus, Bet, cancelled, is_cancelled, set_status, reconcile_settlement, cancel_market_bets,
}
use sportystake.Settlement.Plan.{Plan, Unresolved}
use sportystake.Settlement.Parlay.{ParlayLeg, Parlay, reconcile_parlay_legs_for_market}

-- A write to the chain: the hash of the mined transaction, or the message of the error.
pub data TxResult : Type 0 where
  mined : ℕ → TxResult
  failed : Text → TxResult

-- `configured`: an operator key is there and the contract has an address.
pub record Chain : Type 0 where
  pub configured : Bool
  pub void_bet : ℕ → TxResult
  pub settle_market : TxResult
  pub cancel_market : TxResult

pub data MarketStatus : Type 0 where
  market_open market_suspended market_live market_settled market_cancelled : MarketStatus

pub record Market : Type 0 where
  pub id : ℕ
  pub fixture_id : Option ℕ
  pub status : MarketStatus
  pub winning_outcome : Option ℕ
  pub home_score : Option ℕ
  pub away_score : Option ℕ
  pub needs_manual_review : Bool
  pub is_prediction : Bool
  pub start_time : ℕ

pub record Db : Type 0 where
  pub bets : List Bet
  pub legs : List ParlayLeg
  pub parlays : List Parlay
  pub markets : List Market

-- `MarketsRepo.setStatus`; without an outcome the column stays
abbrev pub set_market : ℕ → MarketStatus → Option ℕ → Market → Market
set_market i s none m = if m.id == i then record m { status = s } else m
set_market i s (some w) m =
    if m.id == i then record m { status = s; winning_outcome = some w } else m

abbrev pub find_bet : ℕ → List Bet → Option Bet
find_bet i [] = none
find_bet i (b ∷ bs) = let rest = find_bet i bs in if b.id == i then some b else rest

abbrev pub is_cancelled_row : Option Bet → Bool
is_cancelled_row none = false
is_cancelled_row (some b) = is_cancelled b.status

-- The messages after which a bet that could not be voided is taken for voided already.
unfoldable pub is_void_skip : Text → Bool
is_void_skip message =
    includes message (codes "BetNotRefundable")
    || includes message (codes "MarketAlreadySettled")
    || includes message (codes "BetNotFound")

-- One round of the loop over the bets to void: the rows and the hashes so far.
abbrev pub void_result : ℕ → TxResult → List Bet → List Bet
void_result bet (mined hash) bets = set_status bet cancelled bets
void_result bet (failed message) bets =
    if is_void_skip message then set_status bet cancelled bets else bets

abbrev pub void_hashes : TxResult → List ℕ
void_hashes (mined hash) = hash ∷ []
void_hashes (failed message) = []

unfoldable pub void_bets : (ℕ → TxResult) → List ℕ → List Bet → List Bet × List ℕ
void_bets tx [] bets = (bets, [])
void_bets tx (bet ∷ ids) bets =
    let skip = is_cancelled_row (find_bet bet bets) in
    let bets' = if skip then bets else void_result bet (tx bet) bets in
    let (rest, hashes) = void_bets tx ids bets' in
    (rest, (if skip then [] else void_hashes (tx bet)) ++ hashes)

abbrev pub max_settle_batch : ℕ
max_settle_batch = 500

-- The messages after which settlement goes on to the tables.
unfoldable pub is_settle_skip : Text → Bool
is_settle_skip message =
    includes message (codes "MarketAlreadySettled") || includes message (codes "MarketNotFound")

-- The function returns with the tables and the hashes, or throws with the tables as they are then.
pub data Executed : Type 0 where
  settled : Db → Option ℕ → List ℕ → Executed
  threw : Db → Executed

-- The part behind the chain calls: the tables.
unfoldable pub reconcile_tables : ℕ → ℕ → Plan → Db → Db
reconcile_tables market primary_winning_outcome plan db =
    let bets' = (reconcile_settlement market plan.winning_bet_ids plan.voided_bet_ids db.bets).0 in
    let markets' =
      map (set_market market market_settled (some primary_winning_outcome)) db.markets in
    elim plan.scores [
      | none ↦ record db { bets = bets'; markets = markets' }
      | some (home, away) ↦
          let run = reconcile_parlay_legs_for_market market home away db.legs db.parlays in
          record { bets = bets'; legs = run.legs; parlays = run.parlays; markets = markets' }
    ]

-- The call of `settleMarket` and what follows it.
abbrev pub after_settle : ℕ → ℕ → Plan → List ℕ → Db → TxResult → Executed
after_settle market outcome plan hashes db (mined hash) =
    settled (reconcile_tables market outcome plan db) (some hash) hashes
after_settle market outcome plan hashes db (failed message) =
    if is_settle_skip message
    then settled (reconcile_tables market outcome plan db) none hashes
    else threw db

unfoldable pub execute_market_settlement : Chain → ℕ → ℕ → Plan → Db → Executed
unfolding void_bets
execute_market_settlement chain market primary_winning_outcome plan db =
    if chain.configured
    then (let (bets', hashes) = void_bets chain.void_bet plan.voided_bet_ids db.bets in
        let db' = record db { bets = bets' } in
        if ltb max_settle_batch (length plan.winning_bet_ids)
        then threw db'
        else after_settle market primary_winning_outcome plan hashes db' chain.settle_market)
    else settled (reconcile_tables market primary_winning_outcome plan db) none []

-- `cancelMarketOnchain`
unfoldable pub is_cancel_skip : Text → Bool
is_cancel_skip message =
    includes message (codes "MarketNotFound") || includes message (codes "MarketAlreadyCancelled")

unfoldable pub cancel_tables : ℕ → Db → Db
cancel_tables market db = record db {
  markets = map (set_market market market_cancelled none) db.markets;
  bets = (cancel_market_bets market db.bets).0;
}

abbrev pub after_cancel : ℕ → Db → TxResult → Executed
after_cancel market db (mined hash) = settled (cancel_tables market db) (some hash) []
after_cancel market db (failed message) =
    if is_cancel_skip message then settled (cancel_tables market db) none [] else threw db

unfoldable pub cancel_market_onchain : Chain → ℕ → Db → Executed
cancel_market_onchain chain market db =
    if chain.configured
    then after_cancel market db chain.cancel_market
    else settled (cancel_tables market db) none []
