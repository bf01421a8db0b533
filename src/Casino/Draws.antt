-- ===== src/Casino/Draws.antt =====
-- The draws of src/lib/server/provably-fair.ts. The digest function belongs to the platform: it is a
-- parameter, from a key and a message to bytes, as is the decimal text of a number.
pub mod Laws
use sportystake.Base.{
  drop, ℕ, zero, suc, ◌+◌, ◌-◌, ◌*◌, ◌/◌, ◌%◌, ◌^◌, ◌≤◌, ◌<◌, ◌≡◌, refl, ◌⊎◌, inl, inr, Bool, true,
  false, Option, none, some, List, [], ◌∷◌, ◌++◌, arith, ltb, leb, ◌==◌, if◌then◌else◌, Text, codes,
  All, sum_by, length, Bool-cases, Option-cases,
}

-- `readUInt32BE`
unfoldable pub read_u32 : ℕ → ℕ → ℕ → ℕ → ℕ
read_u32 a b c d = ((a * 256 + b) * 256 + c) * 256 + d

-- The four-byte windows of a digest, one behind the other.
unfoldable pub windows : List ℕ → List ℕ
unfolding read_u32
windows (a ∷ b ∷ c ∷ d ∷ rest) = read_u32 a b c d ∷ windows rest
windows _ = []

-- The first window below the bound.
unfoldable pub first_below : ℕ → List ℕ → Option ℕ
first_below bound [] = none
first_below bound (v ∷ vs) = let rest = first_below bound vs in if ltb v bound then some v else rest

-- `draw < acc`, over the running sums of the weights; the index of the last weight otherwise
unfoldable pub pick : ℕ → ℕ → ℕ → List ℕ → ℕ
pick draw acc i [] = i - 1
pick draw acc i (w ∷ ws) =
    let rest = pick draw (acc + w) (suc i) ws in if ltb draw (acc + w) then i else rest

abbrev pub retry : Text → Text
retry seed = seed ++ codes ":retry"

-- What the platform provides.
pub record Platform : Type 0 where
  pub hmac : Text → Text → List ℕ
  pub show : ℕ → Text

-- `Math.floor(0x100000000 / n) * n`
abbrev pub bias_bound : ℕ → ℕ
bias_bound n = 2 ^ 32 / n * n

module _ (platform : Platform) where
  unfoldable pub derive_result : Text → Text → ℕ → List ℕ
  derive_result server_seed client_seed nonce =
      platform.hmac server_seed (client_seed ++ codes ":" ++ platform.show nonce)

  -- `hmac.readUInt32BE(0)`; a digest that is shorter than a window has none
  unfoldable pub first_u32 : Text → Text → ℕ → Option ℕ
  unfolding windows derive_result
  first_u32 server_seed client_seed nonce =
      elim (windows (derive_result server_seed client_seed nonce)) [ [] ↦ none | v ∷ _ ↦ some v ]

  unfoldable pub roulette_number : Text → Text → ℕ → Option ℕ
  unfolding first_u32
  roulette_number server_seed client_seed nonce = elim (first_u32 server_seed client_seed nonce) [
    | none ↦ none
    | some v ↦ some (v % 37)
  ]

  -- `uniformIndex`, with fuel for the retries; `none` when the fuel is spent, or for `n` zero, where
  -- the source throws. The cursor is a multiple of four.
  unfoldable pub uniform_index : ℕ → Text → Text → ℕ → ℕ → ℕ → Option ℕ
  unfolding first_below windows derive_result
  uniform_index zero server_seed client_seed nonce n cursor = none
  uniform_index (suc fuel) server_seed client_seed nonce n cursor =
      let again = uniform_index fuel (retry server_seed) client_seed nonce n 0 in
      let bytes = derive_result server_seed client_seed nonce in
      if n == 0 then none else elim (first_below (bias_bound n) (windows (drop cursor bytes))) [
        | some v ↦ some (v % n)
        | none ↦ again
      ]

  abbrev pub cell_seed : Text → ℕ → Text
  cell_seed client_seed cell_index = client_seed ++ codes ":cell" ++ platform.show cell_index

  -- `weightedCellIndex`; `none` where the source throws, or when the fuel is spent
  unfoldable pub weighted_cell_index : ℕ → Text → Text → ℕ → ℕ → List ℕ → Option ℕ
  unfolding uniform_index pick
  weighted_cell_index fuel server_seed client_seed nonce cell_index weights =
      let total = sum_by (λ w. w) weights in
      elim (uniform_index fuel server_seed (cell_seed client_seed cell_index) nonce total 0) [
        | none ↦ none
        | some draw ↦ some (pick draw 0 0 weights)
      ]
