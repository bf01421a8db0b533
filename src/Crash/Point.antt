-- ===== src/Crash/Point.antt =====
-- `onchainCrashMultiplierX100` (src/lib/server/crashMath.ts), on the hash of the seed and the round.
pub mod Laws
use sportystake.Base.{ℕ, ◌+◌, ◌-◌, ◌*◌, ◌/◌, ◌%◌, Bool, true, false, ltb, if◌then◌else◌}

abbrev pub bps_denom : ℕ
bps_denom = 10_000

abbrev pub max_autocashout_x100 : ℕ
max_autocashout_x100 = 100_000

abbrev pub no_risk_floor_x100 : ℕ
no_risk_floor_x100 = 140

abbrev pub no_risk_max_x100 : ℕ
no_risk_max_x100 = 5_000

-- A round that nobody joined.
unfoldable pub no_risk_x100 : ℕ → ℕ
no_risk_x100 r =
    let e = r % 1_000_000 in
    let added = 150 * e / (1_000_000 - e * 93 / 100) in
    let crash = no_risk_floor_x100 + added in
    if ltb no_risk_max_x100 crash then no_risk_max_x100 else crash

-- A round with stakes that does not bust at once.
unfoldable pub curve_x100 : ℕ → ℕ → ℕ
curve_x100 rtp_bps e =
    let crash = rtp_bps * 1_000_000 / (100 * (1_000_000 - e)) in
    let at_least = if ltb crash 101 then 101 else crash in
    if ltb max_autocashout_x100 at_least then max_autocashout_x100 else at_least

-- `rtp_bps` is at most `bps_denom`: beyond it the source compares with a number below zero, which the
-- difference of natural numbers, zero, stands for.
unfoldable pub onchain_crash_multiplier_x100 : (ℕ → ℕ → ℕ) → ℕ → ℕ → ℕ → Bool → ℕ
onchain_crash_multiplier_x100 keccak seed round_id rtp_bps no_risk =
    let r = keccak seed round_id in
    if no_risk
    then no_risk_x100 r
    else if ltb (r % bps_denom) (bps_denom - rtp_bps)
    then 100
    else curve_x100 rtp_bps (r % 1_000_000)
