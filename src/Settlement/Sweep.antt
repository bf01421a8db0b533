-- ===== src/Settlement/Sweep.antt =====
-- `settleFinishedMarketsWithPendingBets` (src/lib/server/settlement.ts): the markets that have a
-- score and something left to settle. The fixtures of the live feed, the time, and the answers of the
-- chain for each market are parameters. An exception ends the sweep and is logged.
pub mod Laws
pub mod Review
use sportystake.Base.{
  ℕ, ◌+◌, ◌-◌, ◌*◌, Bool, true, false, not, ◌&&◌, ◌||◌, Option, none, some, List, [], ◌∷◌, ◌==◌,
  ltb, if◌then◌else◌, select, any, elem,
}
use sportystake.Settlement.Outcome.{key_1x2, resolve_score_based_outcome}
use sportystake.Settlement.Tables.{Bet, is_pending}
use sportystake.Settlement.Plan.{plan_score_based_settlement}
use sportystake.Settlement.Parlay.{ParlayLeg, LegResult, leg_pending}
use sportystake.Settlement.Execute.{
  Chain, Market, MarketStatus, market_settled, market_cancelled, Db, Executed, settled, threw,
  execute_market_settlement,
}
use sportystake.Settlement.Worker.{outcome_or_zero}

abbrev pub is_leg_pending : LegResult → Bool
is_leg_pending leg_pending = true
is_leg_pending _ = false

-- `bets: { some: … }` or `parlayLegs: { some: … }`
unfoldable pub has_pending : ℕ → Db → Bool
has_pending market db =
    any (λ b. b.market_id == market && is_pending b.status) db.bets
    || any (λ leg. leg.market_id == market && is_leg_pending leg.result) db.legs

abbrev pub has_value : Option ℕ → Bool
has_value none = false
has_value (some n) = true

-- Settled, or not cancelled and begun before the cutoff.
abbrev pub is_due : ℕ → MarketStatus → ℕ → Bool
is_due cutoff market_settled start = true
is_due cutoff market_cancelled start = false
is_due cutoff _ start = ltb start cutoff

-- The filter of the query.
unfoldable pub is_swept : ℕ → Db → Market → Bool
unfolding has_pending
is_swept cutoff db m =
    not m.is_prediction
    && has_value m.home_score
    && has_value m.away_score
    && is_due cutoff m.status m.start_time
    && has_pending m.id db

-- The game is still played, by the live feed; an id of zero is falsy.
abbrev pub is_live : List ℕ → Option ℕ → Bool
is_live live none = false
is_live live (some fixture) = not (fixture == 0) && elem fixture live

abbrev pub settle_market_with : Chain → ℕ → Option ℕ → Option ℕ → Db → Executed
settle_market_with chain market (some home) (some away) db =
    execute_market_settlement chain market
      (outcome_or_zero (resolve_score_based_outcome key_1x2 home away))
      (plan_score_based_settlement market home away db.bets) db
settle_market_with chain market _ _ db = settled db none []

-- The body of the loop.
unfoldable pub sweep_market : (ℕ → Chain) → List ℕ → Market → Db → Executed
sweep_market chains live m db =
    if is_live live m.fixture_id
    then settled db none []
    else settle_market_with (chains m.id) m.id m.home_score m.away_score db

-- The loop, which an exception ends, with the tables as they are then.
unfoldable pub sweep_markets : (ℕ → Chain) → List ℕ → List Market → Db → Executed
unfolding sweep_market
sweep_markets chains live [] db = settled db none []
sweep_markets chains live (m ∷ ms) db = elim (sweep_market chains live m db) [
  | threw db' ↦ threw db'
  | settled db' hash hashes ↦ sweep_markets chains live ms db'
]

-- 100 minutes before now
abbrev pub kickoff_cutoff : ℕ → ℕ
kickoff_cutoff now = now - 100 * 60 * 1000

unfoldable pub settle_finished_markets : (ℕ → Chain) → List ℕ → ℕ → Db → Executed
unfolding sweep_markets is_swept
settle_finished_markets chains live now db =
    sweep_markets chains live (select (is_swept (kickoff_cutoff now) db) db.markets) db
