-- ===== src/Quota.antt =====
-- The hourly budget of requests to the odds provider
-- (packages/oracle/src/quota/quota-budget-manager.ts). A time is a number of milliseconds since the
-- epoch, which began with an hour of UTC. Saved snapshots, alerts and the timer, which only calls the reset, are left out.
pub mod Laws
mod Tests
use sportystake.Base.{
  ℕ, zero, suc, ◌+◌, ◌-◌, ◌*◌, ◌/◌, Bool, true, false, not, ◌&&◌, ◌||◌, Option, none, some, List,
  [], ◌∷◌, min, ltb, leb, ◌==◌, if◌then◌else◌,
}

pub data Priority : Type 0 where
  critical high low : Priority

pub data QuotaMode : Type 0 where
  normal conservation emergency : QuotaMode

abbrev pub hourly_quota : ℕ
hourly_quota = 100

unfoldable pub mode_for : ℕ → QuotaMode
mode_for remaining =
    if ltb remaining 8 then emergency else if ltb remaining 15 then conservation else normal

abbrev pub hour : ℕ
hour = 3_600_000

unfoldable pub next_utc_hour : ℕ → ℕ
next_utc_hour now = (now / hour + 1) * hour

-- The fields of `QuotaBudgetManager` that decide.
pub record Manager : Type 0 where
  pub remaining : ℕ
  pub used : ℕ
  pub reset_at : ℕ
  pub current_mode : QuotaMode
  pub recovery_probe_available : Bool

pub record QuotaSnapshot : Type 0 where
  pub used : ℕ
  pub remaining : ℕ
  pub reset_at : ℕ

unfoldable pub fresh_manager : ℕ → Manager
fresh_manager now = record {
  remaining = hourly_quota;
  used = 0;
  reset_at = next_utc_hour now;
  current_mode = normal;
  recovery_probe_available = false;
}

unfoldable pub perform_reset : ℕ → Manager → Manager
perform_reset now m = record m {
  remaining = hourly_quota;
  used = 0;
  reset_at = next_utc_hour now;
  current_mode = normal;
  recovery_probe_available = false;
}

-- `init`, with the snapshot that the tracker loads
unfoldable pub init : ℕ → Option QuotaSnapshot → Manager → Manager
init now none m = record m { current_mode = mode_for m.remaining }
init now (some s) m =
    let m' =
      if ltb now s.reset_at
      then record m {
        remaining = s.remaining;
        used = s.used;
        reset_at = s.reset_at;
        recovery_probe_available = s.remaining == 0;
      }
      else perform_reset now m in
    record m' { current_mode = mode_for m'.remaining }

-- It leaves the recovery probe as it is.
unfoldable pub reconcile_if_window_expired : ℕ → Manager → Manager
reconcile_if_window_expired now m = if ltb now m.reset_at then m else record m {
  remaining = hourly_quota;
  used = 0;
  reset_at = next_utc_hour now;
  current_mode = normal;
}

abbrev pub is_critical : Priority → Bool
is_critical critical = true
is_critical _ = false

abbrev pub is_low : Priority → Bool
is_low low = true
is_low _ = false

-- The gate behind the reconciliation.
unfoldable pub is_allowed : Priority → Manager → Bool
is_allowed priority m =
    if m.remaining == 0 && m.recovery_probe_available
    then true
    else if m.remaining == 0
    then false
    else if ltb m.remaining 5
    then is_critical priority
    else if ltb m.remaining 10
    then not (is_low priority)
    else true

unfoldable pub can_make_request : ℕ → Priority → Manager → Bool × Manager
can_make_request now priority m =
    let m' = reconcile_if_window_expired now m in (is_allowed priority m', m')

-- `Math.trunc(Number(header))`: no finite number, one below zero, or a natural one
pub data Header : Type 0 where
  no_number below_zero : Header
  number : ℕ → Header

-- The counters behind a request.
unfoldable pub count_request : Header → Manager → Manager
count_request no_number m = record m {
  remaining = m.remaining - 1;
  used = min hourly_quota (m.used + 1);
}
count_request below_zero m = record m { remaining = 0; used = hourly_quota }
count_request (number n) m =
    let remaining = min hourly_quota n in
    record m { remaining = remaining; used = hourly_quota - remaining }

unfoldable pub record_request : ℕ → Header → Manager → Manager
record_request now header m =
    let m' = reconcile_if_window_expired now m in
    let m'' = count_request header (record m' { recovery_probe_available = false }) in
    record m'' { current_mode = mode_for m''.remaining }
