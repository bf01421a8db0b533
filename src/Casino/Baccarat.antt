-- ===== src/Casino/Baccarat.antt =====
-- `resolveBaccarat` (src/lib/server/casino.ts), from the points that the two draws of each side give.
-- Multipliers are in hundredths.
pub mod Laws
use sportystake.Base.{
  ℕ, ◌+◌, ◌-◌, ◌*◌, ◌/◌, ◌%◌, Bool, true, false, ◌&&◌, Option, none, some, ltb, if◌then◌else◌, Text,
}
use sportystake.Casino.Draws.{Platform, uniform_index}
use sportystake.Casino.Roulette.{walk}

pub data Winner : Type 0 where
  player banker tie : Winner

abbrev pub same_winner : Winner → Winner → Bool
same_winner player player = true
same_winner banker banker = true
same_winner tie tie = true
same_winner _ _ = false

unfoldable pub baccarat_winner : ℕ → ℕ → Winner
baccarat_winner p b = if ltb b p then player else if ltb p b then banker else tie

abbrev pub multiplier_of : Winner → ℕ
multiplier_of tie = 900
multiplier_of banker = 195
multiplier_of player = 200

unfoldable pub evaluate_baccarat_bet : ℕ → ℕ → Winner → ℕ
unfolding baccarat_winner
evaluate_baccarat_bet p b bet =
    if same_winner (baccarat_winner p b) bet then multiplier_of bet else 0

-- `(uniformIndex(…, 10, cursor) + uniformIndex(…, 10, cursor + 4)) % 10`, on fuel for the retries
unfoldable pub natural_points : Platform → ℕ → Text → Text → ℕ → ℕ → Option ℕ
unfolding uniform_index
natural_points platform fuel server_seed client_seed nonce cursor =
    elim (uniform_index platform fuel server_seed client_seed nonce 10 cursor) [
      | none ↦ none
      | some x ↦ elim (uniform_index platform fuel server_seed client_seed nonce 10 (cursor + 4)) [
        | none ↦ none
        | some y ↦ some ((x + y) % 10)
      ]
    ]

pub record BaccaratResult : Type 0 where
  pub player_points : ℕ
  pub banker_points : ℕ
  pub payout : ℕ
  pub payout_multiplier : ℕ
  pub remapped : Bool

-- The multiplier of a pair of points by its index.
abbrev pub evaluate_index : Winner → ℕ → ℕ
evaluate_index bet i = evaluate_baccarat_bet (i / 10) (i % 10) bet

unfoldable pub settle_baccarat : ℕ → ℕ → ℕ → Winner → ℕ → BaccaratResult
settle_baccarat natural_p natural_b amount bet available_capacity =
    let natural_multiplier = evaluate_baccarat_bet natural_p natural_b bet in
    let deficit = amount * (natural_multiplier - 100) / 100 in
    let remapped = ltb 0 natural_multiplier && ltb available_capacity deficit in
    let index = walk (evaluate_index bet) 100 (natural_p * 10 + natural_b) 100 1 in
    let p = if remapped then index / 10 else natural_p in
    let b = if remapped then index % 10 else natural_b in
    let multiplier = evaluate_baccarat_bet p b bet in
    record {
      player_points = p;
      banker_points = b;
      payout = amount * multiplier / 100;
      payout_multiplier = multiplier;
      remapped = remapped;
    }

unfoldable pub resolve_baccarat :
    Platform → ℕ → Text → Text → ℕ → ℕ → Winner → ℕ → Option BaccaratResult
resolve_baccarat platform fuel server_seed client_seed nonce amount bet available_capacity =
    elim (natural_points platform fuel server_seed client_seed nonce 0) [
      | none ↦ none
      | some p ↦ elim (natural_points platform fuel server_seed client_seed nonce 8) [
        | none ↦ none
        | some b ↦ some (settle_baccarat p b amount bet available_capacity)
      ]
    ]
