-- ===== src/Casino/Draws/Laws.antt =====
-- What the draws promise, whatever the digest is.
use native.Mathlib.Nat.{mod-lt, mod-eq_of_lt, mul-add-mod_self_right, mul-le-mul_right, suc-mul}
use sportystake.Base.{
  ◌∙◌, ℕ, zero, suc, ◌+◌, ◌*◌, ◌/◌, ◌%◌, ◌^◌, ◌≤◌, ◌<◌, ◌≡◌, ◌↔◌, inl, inr, some, List, [], ◌∷◌,
  arith, ltb, Text, sum_by, length, Bool-cases, Option-cases, drop,
}
use sportystake.Casino.Draws.{
  Platform, windows, first_below, pick, retry, derive_result, bias_bound, uniform_index,
}

-- The seed after `k` retries.
abbrev pub retries : ℕ → Text → Text
retries zero seed = seed
retries (suc k) seed = retries k (retry seed)

module _ (platform : Platform) (client_seed : Text) (nonce n : ℕ) (pos : 0 < n) where
  -- A draw of an index below `n` is below `n`.
  pub uniform_index-lt :
      (fuel : ℕ) (seed : Text) (cursor i : ℕ)
      → uniform_index platform fuel seed client_seed nonce n cursor ≡ some i
      → i < n
  unfolding uniform_index
  uniform_index-lt zero seed cursor i e = cc
  uniform_index-lt (suc fuel) seed cursor i e =
      let again = uniform_index-lt fuel (retry seed) 0 i in
      let bytes = derive_result platform seed client_seed nonce in
      elim (Option-cases (first_below (bias_bound n) (windows (drop cursor bytes)))) [
        | inl none_left ↦ again (ground (arith, e, none_left))
        | inr (v, found) ↦ let small = mod-lt v pos in ground (arith, e, found)
      ]

  -- If the digest of some retry has a window below the bound, a draw returns once the fuel exceeds
  -- that number of retries.
  pub uniform_index_total :
      (fuel k : ℕ) (seed : Text) (v : ℕ)
      → k < fuel
      → first_below
          (bias_bound n)
          (windows (derive_result platform (retries k seed) client_seed nonce))
        ≡ some v
      → (i : ℕ) × (uniform_index platform fuel seed client_seed nonce n 0 ≡ some i) × (i < n)
  unfolding uniform_index
  uniform_index_total zero k seed v h e = ground arith
  uniform_index_total (suc fuel) zero seed v h e = (v % n, ground (arith, e), mod-lt v pos)
  uniform_index_total (suc fuel) (suc k) seed v h e =
      let bytes = derive_result platform seed client_seed nonce in
      elim (Option-cases (first_below (bias_bound n) (windows bytes))) [
        | inl none_left ↦
            let (i, again, small) = uniform_index_total fuel k (retry seed) v (omega arith) e in
            (i, ground (arith, again, none_left), small)
        | inr (w, found) ↦ (w % n, ground (arith, found), mod-lt w pos)
      ]

-- No index is preferred: of the values below the bound, `2 ^ 32 / n` give each index.
pub uniform_index_fair :
    (n q i : ℕ)
    → i < n
    → ((first_below (bias_bound n) ((q * n + i) ∷ []) ≡ some (q * n + i)) ↔ (q < 2 ^ 32 / n))
      × ((q * n + i) % n ≡ i)
unfolding first_below
uniform_index_fair n q i h =
    let c = 2 ^ 32 / n in
    let rest : (q * n + i) % n ≡ i = mul-add-mod_self_right q n i ∙ mod-eq_of_lt h in
    elim (Bool-cases (ltb q c)) [
      | inl s ↦
          let room : suc q * n ≤ c * n = mul-le-mul_right n (ground arith) in
          let next : suc q * n ≡ q * n + n = suc-mul q n in (ground arith, rest)
      | inr s ↦ let over : c * n ≤ q * n = mul-le-mul_right n (ground arith) in (ground arith, rest)
    ]

-- The weight of the symbols before an index.
abbrev pub weight_before : ℕ → List ℕ → ℕ
weight_before i [] = 0
weight_before zero (w ∷ ws) = 0
weight_before (suc i) (w ∷ ws) = w + weight_before i ws

pick_place :
    (draw acc k : ℕ) (ws : List ℕ)
    → acc ≤ draw
    → draw < acc + sum_by (λ w. w) ws
    → (i : ℕ) × (pick draw acc k ws ≡ k + i)
      × (i < length ws)
      × (acc + weight_before i ws ≤ draw)
      × (draw < acc + weight_before (suc i) ws)
unfolding pick
pick_place draw acc k [] h e = ground arith
pick_place draw acc k (w ∷ ws) h e = elim (Bool-cases (ltb draw (acc + w))) [
  | inl s ↦ (0, ground arith, omega arith, ground arith, ground arith)
  | inr s ↦
      let (i, same, small, below, above) =
        pick_place draw (acc + w) (suc k) ws (ground arith) (omega arith) in
      (suc i, ground arith, omega arith, omega arith, omega arith)
]

-- A draw below the total weight picks an index of the list, the one whose share of the weights it
-- falls into.
pub pick_lem :
    (draw : ℕ) (ws : List ℕ)
    → draw < sum_by (λ w. w) ws
    → (pick draw 0 0 ws < length ws)
      × (weight_before (pick draw 0 0 ws) ws ≤ draw)
      × (draw < weight_before (suc (pick draw 0 0 ws)) ws)
pick_lem draw ws h =
    let (i, same, small, below, above) = pick_place draw 0 0 ws (omega arith) (omega arith) in
    let exact : pick draw 0 0 ws ≡ i = omega arith in rw exact (small, omega arith, omega arith)
