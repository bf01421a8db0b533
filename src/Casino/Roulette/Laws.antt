-- ===== src/Casino/Roulette/Laws.antt =====
-- What the gate on roulette promises.
use native.Mathlib.Nat.{mod-lt}
use sportystake.Base.{
  subst, ℕ, zero, suc, ◌+◌, ◌-◌, ◌*◌, ◌%◌, ◌≤◌, ◌<◌, ◌≡◌, refl, ◌↔◌, ◌⊎◌, inl, inr, true, Option,
  none, some, arith, ltb, ◌==◌, Bool-cases,
}
use sportystake.Casino.Roulette.{
  RouletteBet, straight, red, black, even, odd, low, high, dozen, column, unknown,
  evaluate_roulette_bet, walk, resolve_roulette,
}

module _ (evaluate : ℕ → ℕ) (size natural : ℕ) where
  -- A walk that passes a losing number stops at one.
  pub walk-loses :
      (steps i j : ℕ)
      → i ≤ j
      → j < i + steps
      → evaluate ((natural + j) % size) ≡ 0
      → evaluate (walk evaluate size natural steps i) ≡ 0
  unfolding walk
  walk-loses zero i j h k e = ground arith
  walk-loses (suc steps) i j h k e = elim (Bool-cases (evaluate ((natural + i) % size) == 0)) [
    | inl s ↦ ground arith
    | inr s ↦ elim (Bool-cases (i == j)) [
      | inl q ↦ let same : i ≡ j = ground arith in ground arith
      | inr q ↦ let rest = walk-loses steps (suc i) j (ground arith) (omega arith) e in ground arith
    ]
  ]

  pub walk-lt :
      (steps i : ℕ) → 0 < size → natural < size → walk evaluate size natural steps i < size
  unfolding walk
  walk-lt zero i h k = k
  walk-lt (suc steps) i h k =
      let rest = walk-lt steps (suc i) h k in
      let below : (natural + i) % size < size = mod-lt (natural + i) h in ground arith

zero_loses :
    (bet : RouletteBet) (selection : Option ℕ)
    → (bet ≡ straight) ⊎ (evaluate_roulette_bet 0 bet selection ≡ 0)
unfolding evaluate_roulette_bet
zero_loses straight selection = inl refl
zero_loses dozen selection = inr (ground arith)
zero_loses column selection = inr refl
zero_loses red selection = inr refl
zero_loses black selection = inr refl
zero_loses even selection = inr refl
zero_loses odd selection = inr refl
zero_loses low selection = inr refl
zero_loses high selection = inr refl
zero_loses unknown selection = inr refl

next_loses :
    (n : ℕ) (selection : Option ℕ)
    → n < 37
    → 0 < evaluate_roulette_bet n straight selection
    → evaluate_roulette_bet ((n + 1) % 37) straight selection ≡ 0
unfolding evaluate_roulette_bet
next_loses n none h w = ground arith
next_loses n (some s) h w = ground arith

-- Every bet that wins has a losing number within a turn: zero, or for a straight bet the next one.
losing_place :
    (n : ℕ) (bet : RouletteBet) (selection : Option ℕ)
    → n < 37
    → 0 < evaluate_roulette_bet n bet selection
    → (j : ℕ) × (1 ≤ j) × (j < 38) × (evaluate_roulette_bet ((n + j) % 37) bet selection ≡ 0)
losing_place n bet selection h w = elim (zero_loses bet selection) [
  | inl s ↦ (
    1,
    omega arith,
    omega arith,
    rw s (next_loses n selection h (subst (λ b. 0 < evaluate_roulette_bet n b selection) s w)),
  )
  | inr z ↦
      let at_zero : (n + (37 - n)) % 37 ≡ 0 = omega arith in
      (37 - n, omega arith, omega arith, rw at_zero z)
]

mul_pred : (a m : ℕ) → a * m ≤ a + a * (m - 1)
mul_pred a zero = omega arith
mul_pred a (suc m) = grind arith

-- From a number on the wheel: the player wins exactly if that number wins and the house can pay what
-- exceeds the stake; the payout never takes more than the stake and the capacity; it is the stake by
-- the multiplier of the number that is shown, which is a number on the wheel; and a draw that is not
-- remapped is shown as it is.
pub resolve_roulette_lem :
    (n amount : ℕ) (bet : RouletteBet) (selection : Option ℕ) (capacity : ℕ)
    → n < 37
    → let r = resolve_roulette n amount bet selection capacity in
      let natural = evaluate_roulette_bet n bet selection in
      ((0 < r.payout_multiplier) ↔ (0 < natural) × (amount * (natural - 1) ≤ capacity))
      × (r.payout ≤ amount + capacity)
      × (r.payout ≡ amount * evaluate_roulette_bet r.number bet selection)
      × (r.number < 37)
      × ((r.number ≡ n) ⊎ (r.remapped ≡ true))
unfolding resolve_roulette
resolve_roulette_lem n amount bet selection capacity h =
    let evaluate : ℕ → ℕ = λ k. evaluate_roulette_bet k bet selection in
    let below = walk-lt evaluate 37 n 37 1 (omega arith) h in
    let split = mul_pred amount (evaluate n) in
    elim (Bool-cases (ltb 0 (evaluate n))) [
      | inr z ↦ (ground arith, ground arith, ground arith, ground arith, inl (ground arith))
      | inl w ↦
          let (j, from, to, e) = losing_place n bet selection h (ground arith) in
          let loses = walk-loses evaluate 37 n 37 1 j from to e in
          elim (Bool-cases (ltb capacity (amount * (evaluate n - 1)))) [
            | inl g ↦ (ground arith, ground arith, ground arith, ground arith, inr (ground arith))
            | inr g ↦ (ground arith, ground arith, ground arith, ground arith, inl (ground arith))
          ]
    ]
