-- ===== src/Casino/Dice.antt =====
-- `resolveDice` (src/lib/server/casino.ts), from the 32-bit number that the roll is made of. A roll
-- is kept in units of 2^-32, where both the natural roll `u32 / 2^32 * 100` and its remapped values
-- are whole (and exact as doubles). The quoted multiplier is rounded from its exact value; the
-- source rounds a double, which can differ where the exact value lies halfway. The target is a whole
-- number. The texts for display, and the rounded multiplier beside the payout, are left out.
pub mod Laws
use sportystake.Casino.Draws.{Platform, first_u32}
use sportystake.Base.{
  Text, ℕ, ◌+◌, ◌-◌, ◌*◌, ◌/◌, ◌^◌, Bool, true, false, ◌&&◌, ◌||◌, Option, none, some, ltb,
  if◌then◌else◌,
}

pub data Direction : Type 0 where
  over under : Direction

pub record DiceResult : Type 0 where
  pub win : Bool
  pub payout : ℕ
  pub roll : ℕ
  pub remapped : Bool

abbrev pub one : ℕ
one = 2 ^ 32

unfoldable pub dice_roll : ℕ → ℕ
dice_roll u32 = u32 * 100

-- `roll > target` or `roll < target`
unfoldable pub is_win : Direction → ℕ → ℕ → Bool
is_win over target roll = ltb (target * one) roll
is_win under target roll = ltb roll (target * one)

-- `chance`, in hundredths
unfoldable pub chance : Direction → ℕ → ℕ
chance over target = 99 - target
chance under target = target

-- `Math.round(multiplier * 1_000_000)`
unfoldable pub multiplier_micros : ℕ → Direction → ℕ → ℕ
unfolding chance
multiplier_micros rtp_bps direction target =
    let c = chance direction target in (2 * (rtp_bps * 10_000) + c) / (2 * c)

unfoldable pub quoted_payout : ℕ → ℕ → Direction → ℕ → ℕ
unfolding multiplier_micros
quoted_payout amount rtp_bps direction target =
    amount * multiplier_micros rtp_bps direction target / 1_000_000

-- The fixed transform into the losing region.
unfoldable pub remap : Direction → ℕ → ℕ → ℕ
remap under target u32 = target * one + u32 * (100 - target)
remap over target u32 = u32 * target

-- The body of `resolveDice` behind its guard.
unfoldable pub settle_dice : ℕ → ℕ → ℕ → Direction → ℕ → ℕ → DiceResult
settle_dice u32 amount target direction rtp_bps available_capacity =
    let natural_roll = dice_roll u32 in
    let natural_win = is_win direction target natural_roll in
    let quoted = quoted_payout amount rtp_bps direction target in
    let remapped = natural_win && ltb (amount + available_capacity) quoted in
    let roll = if remapped then remap direction target u32 else natural_roll in
    let win = is_win direction target roll in
    record { win = win; payout = if win then quoted else 0; roll = roll; remapped = remapped }

-- `none` where the source throws
unfoldable pub resolve_dice : ℕ → ℕ → ℕ → Direction → ℕ → ℕ → Option DiceResult
resolve_dice u32 amount target direction rtp_bps available_capacity =
    if ltb target 1 || ltb 98 target
    then none
    else some (settle_dice u32 amount target direction rtp_bps available_capacity)

-- The same from the seeds: the roll is the first window of the digest.
unfoldable pub resolve_dice_bet :
    Platform → Text → Text → ℕ → ℕ → ℕ → Direction → ℕ → ℕ → Option DiceResult
resolve_dice_bet platform server_seed client_seed nonce amount target direction rtp_bps
      available_capacity =
    elim (first_u32 platform server_seed client_seed nonce) [
      | none ↦ none
      | some u32 ↦ resolve_dice u32 amount target direction rtp_bps available_capacity
    ]
