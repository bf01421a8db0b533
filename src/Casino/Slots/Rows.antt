-- ===== src/Casino/Slots/Rows.antt =====
-- The rows that the gate on slots remaps, and those that it leaves.
use mathlib.Core.List.{append-nil, append_assoc}
use native.Mathlib.Nat.{mul-add}
use sportystake.Base.{
  some, subst, ap, ℕ, zero, suc, ◌+◌, ◌*◌, ◌≤◌, ◌≡◌, ◌≢◌, refl, inl, inr, List, [], ◌∷◌, ◌++◌,
  arith, ltb, leb, ◌==◌, if◌then◌else◌, Bool-cases, length, length-append, All, get_elem?, All-imp,
  All-append, ◌-◌, sym, ◌∙◌,
}
use sportystake.Casino.Slots.{
  wild_index, evaluate_slot_row, first_non_matching_symbol, break_row, Spin, slot_step, slot_rows,
  excess,
}

first_non_matching_symbol-ne :
    (a : ℕ) → (first_non_matching_symbol a ≢ a) × (first_non_matching_symbol a ≢ wild_index)
unfolding first_non_matching_symbol
first_non_matching_symbol-ne a = elim (Bool-cases (0 == a)) [
  | inl e ↦ ground arith
  | inr e ↦ ground arith
]

-- A broken row of at least three symbols does not win.
pub evaluate_slot_row-break_row :
    (row : List ℕ) → 3 ≤ length row → evaluate_slot_row (break_row row) ≡ 0
unfolding evaluate_slot_row break_row
evaluate_slot_row-break_row [] h = refl
evaluate_slot_row-break_row (a ∷ []) h = refl
evaluate_slot_row-break_row (a ∷ b ∷ []) h = ground arith
evaluate_slot_row-break_row (a ∷ b ∷ c ∷ rest) h =
    let (other, tame) = first_non_matching_symbol-ne a in ground arith

-- The multipliers of the first rows that are shown, `k` of them, together.
abbrev pub shown : ℕ → List (List ℕ) → ℕ
shown k [] = 0
shown zero (row ∷ rows) = 0
shown (suc k) (row ∷ rows) = evaluate_slot_row row + shown k rows

pub shown-append :
    (k : ℕ) (rows : List (List ℕ)) (row : List ℕ)
    → shown k (rows ++ row ∷ [])
      ≡ shown k rows + (if leb k (length rows) then 0 else evaluate_slot_row row)
shown-append zero [] row = refl
shown-append (suc k) [] row = ground arith
shown-append zero (x ∷ rows) row = ground arith
shown-append (suc k) (x ∷ rows) row = ground (arith, shown-append k rows row)

pub length_snoc :
    (rows : List (List ℕ)) (row : List ℕ) → length (rows ++ row ∷ []) ≡ suc (length rows)
length_snoc rows row = omega (arith, length-append rows (row ∷ []))

shown_zero : (rows : List (List ℕ)) → shown 0 rows ≡ 0
shown_zero [] = refl
shown_zero (row ∷ rows) = refl

-- The row with an index is shown, and it loses.
abbrev pub LosesAt : List (List ℕ) → ℕ → Type 0
LosesAt reels i = (row : List ℕ) × (get_elem? reels i ≡ some row) × (evaluate_slot_row row ≡ 0)

get_elem?-append :
    (xs ys : List (List ℕ)) (i : ℕ) (x : List ℕ)
    → get_elem? xs i ≡ some x
    → get_elem? (xs ++ ys) i ≡ some x
get_elem?-append [] ys i x e = cc
get_elem?-append (z ∷ xs) ys zero x e = e
get_elem?-append (z ∷ xs) ys (suc i) x e = get_elem?-append xs ys i x e

get_elem?-length : (xs : List (List ℕ)) (x : List ℕ) → get_elem? (xs ++ x ∷ []) (length xs) ≡ some x
get_elem?-length [] x = refl
get_elem?-length (z ∷ xs) x = get_elem?-length xs x

module _ (amount per_line k capacity : ℕ) where
  LosesAt-append :
      (reels more : List (List ℕ)) (is : List ℕ)
      → All (LosesAt reels) is
      → All (LosesAt (reels ++ more)) is
  LosesAt-append reels more is =
      All-imp (λ i (row, e, z). (row, get_elem?-append reels more i row e, z)) is

  slot_step-LosesAt :
      (s : Spin) (r : ℕ) (row : List ℕ)
      → 3 ≤ length row
      → length s.reels ≡ r
      → All (LosesAt s.reels) s.remapped_rows
      → let s' = slot_step amount per_line k capacity s r row in
        All (LosesAt s'.reels) s'.remapped_rows × (length s'.reels ≡ suc r)
  unfolding slot_step
  slot_step-LosesAt s r row h measured lost =
      let natural = evaluate_slot_row row in
      let broken = break_row row in
      let tentative = s.confirmed_multiplier + natural in
      let kept = LosesAt-append s.reels (row ∷ []) s.remapped_rows lost in
      let longer : length (s.reels ++ row ∷ []) ≡ suc r = omega (arith, length_snoc s.reels row) in
      elim (Bool-cases (leb k r)) [
        | inl e ↦ rw e (kept, longer)
        | inr e ↦ elim (Bool-cases (natural == 0)) [
          | inl z ↦ rw (e, z) (kept, longer)
          | inr z ↦ elim (Bool-cases (ltb capacity (excess amount per_line tentative))) [
            | inr g ↦ rw (e, z, g) (kept, longer)
            | inl g ↦
                let here : LosesAt (s.reels ++ broken ∷ []) r = (
                  broken,
                  subst (λ i. get_elem? (s.reels ++ broken ∷ []) i ≡ some broken) measured
                      (get_elem?-length s.reels broken),
                  evaluate_slot_row-break_row row h,
                ) in
                rw (e, z, g)
                  (
                    All-append (LosesAt (s.reels ++ broken ∷ [])) s.remapped_rows (r ∷ [])
                        (LosesAt-append s.reels (broken ∷ []) s.remapped_rows lost) (here, tt),
                    omega (arith, length_snoc s.reels broken),
                  )
          ]
        ]
      ]

  pub slot_rows-LosesAt :
      (rows : List (List ℕ)) (s : Spin) (r : ℕ)
      → All (λ row. 3 ≤ length row) rows
      → length s.reels ≡ r
      → All (LosesAt s.reels) s.remapped_rows
      → let s' = slot_rows amount per_line k capacity s r rows in
        All (LosesAt s'.reels) s'.remapped_rows
  unfolding slot_rows
  slot_rows-LosesAt [] s r h measured lost = lost
  slot_rows-LosesAt (row ∷ rows) s r (h, hs) measured lost =
      let (lost', measured') = slot_step-LosesAt s r row h measured lost in
      slot_rows-LosesAt rows (slot_step amount per_line k capacity s r row) (suc r) hs measured'
        lost'

  -- What remains to be paid out of the rows from `r` on.
  abbrev pub IsAffordable : Spin → ℕ → List (List ℕ) → Type 0
  IsAffordable s r rows =
      per_line * (s.confirmed_multiplier + shown (k - r) rows) ≤ amount + capacity

  slot_step-natural :
      (s : Spin) (r : ℕ) (row : List ℕ) (rows : List (List ℕ))
      → IsAffordable s r (row ∷ rows)
      → let s' = slot_step amount per_line k capacity s r row in
        (s'.reels ≡ s.reels ++ row ∷ [])
        × (s'.remapped_rows ≡ s.remapped_rows)
        × IsAffordable s' (suc r) rows
  unfolding slot_step
  slot_step-natural s r row rows pays =
      let natural = evaluate_slot_row row in
      let tentative = s.confirmed_multiplier + natural in
      elim (Bool-cases (leb k r)) [
        | inl e ↦
            let shut : k - r ≡ 0 = ground (arith, e) in
            let shut' : k - suc r ≡ 0 = ground (arith, e) in
            let fits : per_line * (s.confirmed_multiplier + 0) ≤ amount + capacity =
              subst
                (λ n.
                  per_line * (s.confirmed_multiplier + shown n (row ∷ rows)) ≤ amount + capacity)
                shut pays in
            rw (e, shut', shown_zero rows) (refl, refl, fits)
        | inr e ↦
            let m = k - suc r in
            let one : k - r ≡ suc m = ground (arith, e) in
            let fits : per_line * (s.confirmed_multiplier + (natural + shown m rows))
                ≤ amount + capacity =
              subst
                (λ n.
                  per_line * (s.confirmed_multiplier + shown n (row ∷ rows)) ≤ amount + capacity)
                one pays in
            let sum : s.confirmed_multiplier + (natural + shown m rows) ≡ tentative + shown m rows =
              omega arith in
            let fits' : per_line * (tentative + shown m rows) ≤ amount + capacity =
              subst (λ n. per_line * n ≤ amount + capacity) sum fits in
            elim (Bool-cases (natural == 0)) [
              | inl z ↦
                  let none_paid : tentative + shown m rows ≡ s.confirmed_multiplier + shown m rows =
                    ground (arith, z) in
                  rw (e, z)
                    (refl, refl, subst (λ n. per_line * n ≤ amount + capacity) none_paid fits')
              | inr z ↦
                  let parts = mul-add per_line tentative (shown m rows) in
                  let small : per_line * tentative ≤ amount + capacity =
                    omega (arith, parts, fits') in
                  elim (Bool-cases (ltb capacity (excess amount per_line tentative))) [
                    | inl g ↦ absurd (ground (arith, g, small))
                    | inr g ↦ rw (e, z, g) (refl, refl, fits')
                  ]
            ]
      ]

  -- Where the house can pay all evaluated rows, none is remapped.
  pub slot_rows-natural :
      (rows : List (List ℕ)) (s : Spin) (r : ℕ)
      → IsAffordable s r rows
      → let s' = slot_rows amount per_line k capacity s r rows in
        (s'.reels ≡ s.reels ++ rows) × (s'.remapped_rows ≡ s.remapped_rows)
  unfolding slot_rows
  slot_rows-natural [] s r pays = (sym (append-nil s.reels), refl)
  slot_rows-natural (row ∷ rows) s r pays =
      let (one, same, pays') = slot_step-natural s r row rows pays in
      let s' = slot_step amount per_line k capacity s r row in
      let (all_rows, same') = slot_rows-natural rows s' (suc r) pays' in
      (all_rows ∙ ap (λ x. x ++ rows) one ∙ append_assoc s.reels (row ∷ []) rows, same' ∙ same)
