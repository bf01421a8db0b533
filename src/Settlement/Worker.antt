-- ===== src/Settlement/Worker.antt =====
-- The settlement worker (src/workers/settlement.worker.ts): the handler of a `market:finished`
-- message, with the liability check of src/lib/server/settlementRisk.ts. Of a market's metadata the
-- model keeps the flag that asks for a review.
pub mod Laws
use sportystake.Base.{
  ℕ, ◌+◌, ◌*◌, Bool, true, false, ◌&&◌, ◌||◌, Option, none, some, List, [], ◌∷◌, map, ◌==◌,
  if◌then◌else◌, leb, length, sum_by,
}
use sportystake.Settlement.Outcome.{key_1x2, resolve_score_based_outcome}
use sportystake.Settlement.Tables.{Bet, pending_by_market}
use sportystake.Settlement.Plan.{plan_score_based_settlement}
use sportystake.Settlement.Execute.{
  Chain, Market, MarketStatus, market_settled, market_cancelled, Db, Executed, settled, threw,
  execute_market_settlement,
}

-- 10,000 USDC in units of 10^-6
abbrev pub high_liability_threshold : ℕ
high_liability_threshold = 10_000 * 1_000_000

-- `MarketRiskAssessment`
pub record Risk : Type 0 where
  pub total_pending_bets : ℕ
  pub total_potential_payout : ℕ
  pub requires_manual_review : Bool

unfoldable pub assess_market_settlement_risk : ℕ → ℕ → List Bet → Risk
unfolding pending_by_market
assess_market_settlement_risk market threshold bets =
    let pending_bets = pending_by_market market bets in
    let total = sum_by (λ b. b.potential_payout) pending_bets in
    record {
      total_pending_bets = length pending_bets;
      total_potential_payout = total;
      requires_manual_review = leb threshold total;
    }

-- A `market:finished` message.
pub record FinishedEvent : Type 0 where
  pub fixture_id : ℕ
  pub home_score : ℕ
  pub away_score : ℕ

abbrev pub is_fixture : ℕ → Option ℕ → Bool
is_fixture f none = false
is_fixture f (some g) = f == g

abbrev pub find_fixture : ℕ → List Market → Option Market
find_fixture f [] = none
find_fixture f (m ∷ ms) =
    let rest = find_fixture f ms in if is_fixture f m.fixture_id then some m else rest

abbrev pub is_market_cancelled : MarketStatus → Bool
is_market_cancelled market_cancelled = true
is_market_cancelled _ = false

abbrev pub is_market_settled : MarketStatus → Bool
is_market_settled market_settled = true
is_market_settled _ = false

-- The early return: nothing is left to settle.
abbrev pub is_closed : Market → List Bet → Bool
is_closed m pending_bets =
    is_market_cancelled m.status || (is_market_settled m.status && length pending_bets == 0)

abbrev pub record_score : ℕ → ℕ → ℕ → Market → Market
record_score i home away m =
    if m.id == i then record m { home_score = some home; away_score = some away } else m

abbrev pub flag_review : ℕ → Market → Market
flag_review i m = if m.id == i then record m { needs_manual_review = true } else m

abbrev pub outcome_or_zero : Option ℕ → ℕ
outcome_or_zero none = 0
outcome_or_zero (some w) = w

-- The handler's way out; an exception is caught and logged, with the tables as they are then.
pub data Handled : Type 0 where
  no_market closed_market : Handled
  review : Db → Handled
  ran : Executed → Handled

-- From the stored score on.
unfoldable pub settle_scored : Chain → ℕ → FinishedEvent → Db → Handled
settle_scored chain market event db =
    let primary =
      outcome_or_zero (resolve_score_based_outcome key_1x2 event.home_score event.away_score) in
    let plan = plan_score_based_settlement market event.home_score event.away_score db.bets in
    let risk = assess_market_settlement_risk market high_liability_threshold db.bets in
    if risk.requires_manual_review
    then review (record db { markets = map (flag_review market) db.markets })
    else ran (execute_market_settlement chain market primary plan db)

unfoldable pub on_finished : Chain → FinishedEvent → Db → Handled
unfolding settle_scored pending_by_market
on_finished chain event db = elim (find_fixture event.fixture_id db.markets) [
  | none ↦ no_market
  | some m ↦
      if is_closed m (pending_by_market m.id db.bets)
      then closed_market
      else (let markets' = map (record_score m.id event.home_score event.away_score) db.markets in
          settle_scored chain m.id event (record db { markets = markets' }))
]

-- The tables behind a way out of the handler.
abbrev pub tables_of : Executed → Db
tables_of (settled db hash hashes) = db
tables_of (threw db) = db

abbrev pub tables_after : Db → Handled → Db
tables_after db no_market = db
tables_after db closed_market = db
tables_after db (review db') = db'
tables_after db (ran run) = tables_of run
