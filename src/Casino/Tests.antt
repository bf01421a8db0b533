-- ===== src/Casino/Tests.antt =====
-- The games on small inputs, and the theorems on them there.
use sportystake.Base.{
  ℕ, zero, suc, ◌+◌, ◌-◌, ◌*◌, ◌/◌, ◌≤◌, ◌<◌, ◌≡◌, refl, ◌↔◌, ◌⊎◌, true, none, some, List, [], ◌∷◌,
  arith, length,
}
use sportystake.Casino.Draws.{Platform}
use sportystake.Casino.Dice.{
  over, under, DiceResult, one, dice_roll, is_win, chance, quoted_payout, resolve_dice,
}
use sportystake.Casino.Dice.Laws.{resolve_dice_lem, chance-mirror}
use sportystake.Casino.Roulette.{walk, red, evaluate_roulette_bet, resolve_roulette}
use sportystake.Casino.Roulette.Laws.{resolve_roulette_lem}
use sportystake.Casino.Baccarat.{tie, evaluate_baccarat_bet, settle_baccarat}
use sportystake.Casino.Baccarat.Laws.{settle_baccarat_lem}
use sportystake.Casino.Slots.{SlotResult, draw_rows, evaluate_slot_row, resolve_slots}
use sportystake.Casino.Slots.Laws.{IsSettled, resolve_slots_lem}

-- A digest of 32 bytes that says nothing of its key, and one that is too high for an empty key.
abbrev bytes : ℕ → ℕ → List ℕ
bytes b zero = []
bytes b (suc n) = b ∷ bytes b n

abbrev flat : Platform
flat = record { hmac = λ key message. bytes 128 32; show = λ n. n ∷ [] }

abbrev late : Platform
late = record { hmac = λ key message. bytes (255 - length key * 30) 32; show = λ n. n ∷ [] }

-- The natural number 23 is red and wins 100; a house with 99 shows 24 instead.
remapped_red : (resolve_roulette 23 100 red none 99).number ≡ 24
unfolding resolve_roulette evaluate_roulette_bet walk
remapped_red = refl

natural_red : (resolve_roulette 23 100 red none 100).payout ≡ 200
unfolding resolve_roulette evaluate_roulette_bet walk
natural_red = refl

wild_run : evaluate_slot_row (0 ∷ 6 ∷ 0 ∷ 1 ∷ 0 ∷ []) ≡ 6
unfolding evaluate_slot_row
wild_run = refl

remapped_tie : (settle_baccarat 4 4 100 tie 500).banker_points ≡ 5
unfolding settle_baccarat evaluate_baccarat_bet walk
remapped_tie = refl

resolve_dice_lem_example :
    (r : DiceResult) × (resolve_dice 100_000_000 1_000_000 50 under 9_900 500_000 ≡ some r)
    × ((r.win ≡ true)
        ↔ (is_win under 50 (dice_roll 100_000_000) ≡ true)
          × (quoted_payout 1_000_000 9_900 under 50 ≤ 1_000_000 + 500_000))
    × (r.payout ≤ 1_000_000 + 500_000)
    × (is_win under 50 r.roll ≡ r.win)
    × (r.roll < 100 * one)
resolve_dice_lem_example =
    resolve_dice_lem 100_000_000 1_000_000 50 under 9_900 500_000 (omega arith) (omega arith)
      (omega arith)

chance-mirror_example :
    (is_win over 98 (dice_roll 7) ≡ is_win under 2 (dice_roll (one - 7)))
    × (chance over 98 + 1 ≡ chance under 2)
chance-mirror_example = chance-mirror 98 7 (omega arith) (omega arith) (omega arith) (omega arith)

resolve_roulette_lem_example :
    let r = resolve_roulette 23 100 red none 99 in
    let natural = evaluate_roulette_bet 23 red none in
    ((0 < r.payout_multiplier) ↔ (0 < natural) × (100 * (natural - 1) ≤ 99))
    × (r.payout ≤ 100 + 99)
    × (r.payout ≡ 100 * evaluate_roulette_bet r.number red none)
    × (r.number < 37)
    × ((r.number ≡ 23) ⊎ (r.remapped ≡ true))
resolve_roulette_lem_example = resolve_roulette_lem 23 100 red none 99 (omega arith)

settle_baccarat_lem_example :
    let r = settle_baccarat 4 4 100 tie 500 in
    let natural = evaluate_baccarat_bet 4 4 tie in
    ((0 < r.payout_multiplier) ↔ (0 < natural) × (100 * (natural - 100) / 100 ≤ 500))
    × (r.payout ≤ 100 + 500)
    × (r.player_points < 10)
    × (r.banker_points < 10)
    × (r.payout_multiplier ≡ evaluate_baccarat_bet r.player_points r.banker_points tie)
    × ((r.player_points ≡ 4) × (r.banker_points ≡ 4) ⊎ (r.remapped ≡ true))
settle_baccarat_lem_example = settle_baccarat_lem 4 4 100 tie 500 (omega arith) (omega arith)

-- Five equal symbols in each row.
abbrev equal_rows : List (List ℕ)
equal_rows = let row = bytes 1 5 in row ∷ row ∷ row ∷ []

resolve_slots_lem_example :
    (natural : List (List ℕ)) × (r : SlotResult) × (draw_rows flat 1 [] [] 0 0 3 ≡ some natural)
    × (resolve_slots flat 1 [] [] 0 300 3 1_000 ≡ some r)
    × (length natural ≡ 3)
    × IsSettled 300 3 1_000 natural r
unfolding sportystake.Casino.Draws.first_below sportystake.Casino.Draws.windows
    sportystake.Casino.Draws.derive_result
resolve_slots_lem_example =
    resolve_slots_lem flat 1 [] [] 0 300 3 1_000
      (λ cell less. (0, 2_155_905_152, omega arith, refl))
