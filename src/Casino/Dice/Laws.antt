-- ===== src/Casino/Dice/Laws.antt =====
-- What the gate on dice promises.
use native.Mathlib.Nat.{mul-le-mul_left}
use sportystake.Base.{ℕ, ◌+◌, ◌-◌, ◌*◌, ◌≤◌, ◌<◌, ◌≡◌, ◌↔◌, true, false, some, arith}
use sportystake.Casino.Dice.{
  Direction, over, under, DiceResult, one, dice_roll, is_win, chance, quoted_payout, remap,
  settle_dice, resolve_dice,
}

remap-lt :
    (direction : Direction) (target u32 : ℕ)
    → target ≤ 98
    → u32 < one
    → (is_win direction target (remap direction target u32) ≡ false)
      × (remap direction target u32 < 100 * one)
unfolding is_win remap
remap-lt over target u32 h k =
    let bound : target * u32 ≤ target * one = mul-le-mul_left target (omega arith) in
    (ground arith, omega arith)
remap-lt under target u32 h k =
    let bound : (100 - target) * u32 ≤ (100 - target) * (one - 1) =
      mul-le-mul_left (100 - target) (omega arith) in
    (ground arith, omega arith)

dice_roll-lt : (u32 : ℕ) → u32 < one → dice_roll u32 < 100 * one
unfolding dice_roll
dice_roll-lt u32 h = omega arith

-- For a target from 1 to 98 a roll is resolved. The player wins exactly if the natural roll wins and
-- the house can pay the quoted payout above the stake; the payout never takes more than the stake
-- and the capacity; and the roll that is shown is a roll below 100 that wins exactly if the player
-- does.
pub resolve_dice_lem :
    (u32 amount target : ℕ) (direction : Direction) (rtp_bps capacity : ℕ)
    → 1 ≤ target
    → target ≤ 98
    → u32 < one
    → let quoted = quoted_payout amount rtp_bps direction target in
      (r : DiceResult) × (resolve_dice u32 amount target direction rtp_bps capacity ≡ some r)
      × ((r.win ≡ true)
          ↔ (is_win direction target (dice_roll u32) ≡ true) × (quoted ≤ amount + capacity))
      × (r.payout ≤ amount + capacity)
      × (is_win direction target r.roll ≡ r.win)
      × (r.roll < 100 * one)
unfolding resolve_dice settle_dice
resolve_dice_lem u32 amount target direction rtp_bps capacity low high small =
    let quoted = quoted_payout amount rtp_bps direction target in
    let (loses, below) = remap-lt direction target u32 high small in
    let natural_below : dice_roll u32 < 100 * one = dice_roll-lt u32 small in
    (
      settle_dice u32 amount target direction rtp_bps capacity,
      ground arith,
      ground arith,
      ground arith,
      ground arith,
      ground arith,
    )

-- An `over` bet wins on a draw if the `under` bet on the other side of 100 wins on the mirrored
-- draw, and yet it is quoted a chance that is smaller by one hundredth.
pub chance-mirror :
    (target u32 : ℕ)
    → 1 ≤ target
    → target ≤ 98
    → 0 < u32
    → u32 < one
    → (is_win over target (dice_roll u32) ≡ is_win under (100 - target) (dice_roll (one - u32)))
      × (chance over target + 1 ≡ chance under (100 - target))
unfolding is_win dice_roll chance
chance-mirror target u32 low high pos small = (ground arith, omega arith)
