-- ===== src/Casino/Baccarat/Laws.antt =====
-- What the gate on baccarat promises.
use native.Mathlib.Nat.{mul-le-mul_left, mul-add}
use sportystake.Base.{
  ℕ, ◌+◌, ◌-◌, ◌*◌, ◌/◌, ◌%◌, ◌≤◌, ◌<◌, ◌≡◌, refl, ◌↔◌, ◌⊎◌, inl, inr, true, arith, ltb, Bool-cases,
}
use sportystake.Casino.Roulette.{walk}
use sportystake.Casino.Roulette.Laws.{walk-loses, walk-lt}
use sportystake.Casino.Baccarat.{
  Winner, player, banker, tie, evaluate_baccarat_bet, evaluate_index, settle_baccarat,
}

-- A pair that loses: both sides without a point, or for a tie one point for the banker.
losing_index : (bet : Winner) → (i : ℕ) × (i < 2) × (evaluate_index bet i ≡ 0)
unfolding evaluate_baccarat_bet
losing_index player = (0, omega arith, refl)
losing_index banker = (0, omega arith, refl)
losing_index tie = (1, omega arith, refl)

walk-evaluate_index :
    (bet : Winner) (n : ℕ)
    → n < 100
    → evaluate_index bet (walk (evaluate_index bet) 100 n 100 1) ≡ 0
walk-evaluate_index bet n h =
    let (i, small, e) = losing_index bet in
    elim (Bool-cases (ltb n i)) [
      | inl lt ↦
          let there : (n + (i - n)) % 100 ≡ i = ground arith in
          walk-loses (evaluate_index bet) 100 n 100 1 (i - n) (ground arith) (omega arith)
            (rw there e)
      | inr ge ↦
          let there : (n + (100 + i - n)) % 100 ≡ i = ground arith in
          walk-loses (evaluate_index bet) 100 n 100 1 (100 + i - n) (ground arith) (ground arith)
            (rw there e)
    ]

multiplier_bounds :
    (p b : ℕ) (bet : Winner)
    → (evaluate_baccarat_bet p b bet ≡ 0) ⊎ (100 ≤ evaluate_baccarat_bet p b bet)
unfolding evaluate_baccarat_bet
multiplier_bounds p b player = ground arith
multiplier_bounds p b banker = ground arith
multiplier_bounds p b tie = ground arith

payout_split : (a m : ℕ) → a * m / 100 ≤ a + a * (m - 100) / 100
payout_split a m =
    let over : a * m ≤ a * (100 + (m - 100)) = mul-le-mul_left a (omega arith) in
    let apart : a * (100 + (m - 100)) ≡ a * 100 + a * (m - 100) = mul-add a 100 (m - 100) in
    omega arith

-- From two totals below ten: the player wins exactly if these win for the bet and the house can pay
-- what exceeds the stake; the payout never takes more than the stake and the capacity; the totals
-- that are shown are below ten and give the multiplier; and without a remap they are those drawn.
pub settle_baccarat_lem :
    (p b amount : ℕ) (bet : Winner) (capacity : ℕ)
    → p < 10
    → b < 10
    → let r = settle_baccarat p b amount bet capacity in
      let natural = evaluate_baccarat_bet p b bet in
      ((0 < r.payout_multiplier) ↔ (0 < natural) × (amount * (natural - 100) / 100 ≤ capacity))
      × (r.payout ≤ amount + capacity)
      × (r.player_points < 10)
      × (r.banker_points < 10)
      × (r.payout_multiplier ≡ evaluate_baccarat_bet r.player_points r.banker_points bet)
      × ((r.player_points ≡ p) × (r.banker_points ≡ b) ⊎ (r.remapped ≡ true))
unfolding settle_baccarat
settle_baccarat_lem p b amount bet capacity hp hb =
    let natural = evaluate_baccarat_bet p b bet in
    let loses = walk-evaluate_index bet (p * 10 + b) (omega arith) in
    let below = walk-lt (evaluate_index bet) 100 (p * 10 + b) 100 1 (omega arith) (omega arith) in
    let split = payout_split amount natural in
    elim (Bool-cases (ltb 0 natural)) [
      | inr z ↦
          (ground arith, ground arith, ground arith, ground arith, ground arith, inl (ground arith))
      | inl w ↦ elim (Bool-cases (ltb capacity (amount * (natural - 100) / 100))) [
        | inl g ↦ (
          ground arith,
          ground arith,
          ground arith,
          ground arith,
          ground arith,
          inr (ground arith),
        )
        | inr g ↦ (
          ground arith,
          ground arith,
          ground arith,
          ground arith,
          ground arith,
          inl (ground arith),
        )
      ]
    ]
