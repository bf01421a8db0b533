-- ===== src/Bonus.antt =====
-- The welcome bonus (src/lib/server/bonusEngine.ts). A time is a number of milliseconds, an amount is
-- in units of 10^-6 USDC, odds are in thousandths. Log lines, notifications and errors of the
-- database are left out.
pub mod Laws
mod Tests
use sportystake.Base.{
  ℕ, ◌+◌, ◌*◌, ◌≤◌, Bool, true, false, not, ◌&&◌, ◌||◌, Option, none, some, List, [], ◌∷◌, min, ltb,
  leb, ◌==◌, if◌then◌else◌, select, length,
}

abbrev pub max_bonus_base_units : ℕ
max_bonus_base_units = 2_000_000_000

abbrev pub rollover_multiplier : ℕ
rollover_multiplier = 10

abbrev pub bonus_expiry_days : ℕ
bonus_expiry_days = 10

pub data BonusStatus : Type 0 where
  idle active completed expired forfeited : BonusStatus

-- The columns of `User` that belong to the bonus.
pub record Account : Type 0 where
  pub bonus_opt_in : Bool
  pub bonus_status : BonusStatus
  pub bonus_balance : ℕ
  pub initial_bonus_amount : ℕ
  pub bonus_rollover_wagered : ℕ
  pub bonus_expires_at : Option ℕ

abbrev pub is_idle : BonusStatus → Bool
is_idle idle = true
is_idle _ = false

abbrev pub is_active : BonusStatus → Bool
is_active active = true
is_active _ = false

abbrev pub is_completed : BonusStatus → Bool
is_completed completed = true
is_completed _ = false

-- `legs.filter((l) => l.oddsX1000 >= 1600).length`
unfoldable pub qualifying_legs : List ℕ → ℕ
qualifying_legs legs = length (select (leb 1600) legs)

-- `evaluateFirstWagerForBonus`, with the numbers of bets and parlays of the user; `none` is `null`
unfoldable pub evaluate_first_wager : ℕ → ℕ → ℕ → ℕ → ℕ → List ℕ → Account → Option Account
evaluate_first_wager now bets parlays amount total_odds legs a =
    if not a.bonus_opt_in || not (is_idle a.bonus_status)
    then none
    else if ltb 1 (min 2 bets + min 2 parlays)
    then none
    else if leb total_odds 2000
    then none
    else if ltb (qualifying_legs legs) 3
    then none
    else let match_amount =
        if ltb max_bonus_base_units amount then max_bonus_base_units else amount in
      some (record a {
        bonus_balance = match_amount;
        initial_bonus_amount = match_amount;
        bonus_rollover_wagered = 0;
        bonus_expires_at = some (now + bonus_expiry_days * 24 * 60 * 60 * 1000);
        bonus_status = active;
      })

-- `bonusExpiresAt && new Date() > bonusExpiresAt`
abbrev pub is_past : ℕ → Option ℕ → Bool
is_past now none = false
is_past now (some t) = ltb t now

pub data PlacementCheck : Type 0 where
  valid_placement not_active period_over insufficient_balance too_few_legs too_few_qualifying :
      PlacementCheck

unfoldable pub validate_bonus_bet_placement : ℕ → ℕ → List ℕ → Account → PlacementCheck
validate_bonus_bet_placement now stake legs a =
    if not (is_active a.bonus_status)
    then not_active
    else if is_past now a.bonus_expires_at
    then period_over
    else if stake == 0 || ltb a.bonus_balance stake
    then insufficient_balance
    else if ltb (length legs) 10
    then too_few_legs
    else if ltb (qualifying_legs legs) 3
    then too_few_qualifying
    else valid_placement

-- A bonus accumulator that settles.
pub record BonusBet : Type 0 where
  pub stake : ℕ
  pub payout : ℕ
  pub is_won : Bool

-- `processBonusBetSettlement`, at the time `now`
unfoldable pub process_bonus_bet_settlement : ℕ → BonusBet → Account → Account
process_bonus_bet_settlement now bet a =
    let balance = if bet.is_won then a.bonus_balance + bet.payout else a.bonus_balance in
    let wagered = a.bonus_rollover_wagered + bet.stake in
    if not (is_active a.bonus_status)
    then a
    else if is_past now a.bonus_expires_at
    then record a { bonus_balance = 0; bonus_status = expired }
    else if leb (a.initial_bonus_amount * rollover_multiplier) wagered
    then record a { bonus_balance = 0; bonus_rollover_wagered = wagered; bonus_status = completed }
    else record a { bonus_balance = balance; bonus_rollover_wagered = wagered }
