-- ===== src/Casino/Roulette.antt =====
-- `resolveRoulette` (src/lib/server/casino.ts), from the number that the wheel draws. The text for the
-- colour on display is left out.
pub mod Laws
use sportystake.Casino.Draws.{Platform, roulette_number}
use sportystake.Base.{
  Text, ℕ, zero, suc, ◌+◌, ◌-◌, ◌*◌, ◌%◌, Bool, true, false, not, ◌&&◌, ◌||◌, Option, none, some,
  leb, ltb, ◌==◌, if◌then◌else◌,
}

-- The bet types that the source tells apart; all other texts are `unknown`.
pub data RouletteBet : Type 0 where
  straight red black even odd low high dozen column unknown : RouletteBet

pub data Color : Type 0 where
  green_slot black_slot red_slot : Color

unfoldable pub color : ℕ → Color
color number = if number == 0 then green_slot else if number % 2 == 0 then black_slot else red_slot

abbrev pub is_red : Color → Bool
is_red red_slot = true
is_red _ = false

abbrev pub is_black : Color → Bool
is_black black_slot = true
is_black _ = false

abbrev pub is_between : ℕ → ℕ → ℕ → Bool
is_between a b n = leb a n && leb n b

-- `Number(selection) === n`; `none` is a selection that is no natural number, or none at all
abbrev pub is_selected : Option ℕ → ℕ → Bool
is_selected none n = false
is_selected (some s) n = s == n

-- `number % 3 === (c === 3 ? 0 : c)`
abbrev pub is_column : Option ℕ → ℕ → Bool
is_column none number = false
is_column (some c) number = number % 3 == (if c == 3 then 0 else c)

unfoldable pub evaluate_roulette_bet : ℕ → RouletteBet → Option ℕ → ℕ
unfolding color
evaluate_roulette_bet number straight selection = if is_selected selection number then 36 else 0
evaluate_roulette_bet number red selection = if is_red (color number) then 2 else 0
evaluate_roulette_bet number black selection = if is_black (color number) then 2 else 0
evaluate_roulette_bet number even selection = if ltb 0 number && number % 2 == 0 then 2 else 0
evaluate_roulette_bet number odd selection = if number % 2 == 1 then 2 else 0
evaluate_roulette_bet number low selection = if is_between 1 18 number then 2 else 0
evaluate_roulette_bet number high selection = if is_between 19 36 number then 2 else 0
evaluate_roulette_bet number dozen selection =
    if (is_selected selection 1 && is_between 1 12 number)
      || (is_selected selection 2 && is_between 13 24 number)
      || (is_selected selection 3 && is_between 25 36 number)
    then 3
    else 0
evaluate_roulette_bet number column selection =
    if ltb 0 number && is_column selection number then 3 else 0
evaluate_roulette_bet number unknown selection = 0

-- The walk from `i` on, `steps` long: the first number that loses, or the natural one.
unfoldable pub walk : (ℕ → ℕ) → ℕ → ℕ → ℕ → ℕ → ℕ
walk evaluate size natural zero i = natural
walk evaluate size natural (suc steps) i =
    let rest = walk evaluate size natural steps (suc i) in
    let candidate = (natural + i) % size in if evaluate candidate == 0 then candidate else rest

pub record RouletteResult : Type 0 where
  pub number : ℕ
  pub payout : ℕ
  pub payout_multiplier : ℕ
  pub remapped : Bool

unfoldable pub resolve_roulette : ℕ → ℕ → RouletteBet → Option ℕ → ℕ → RouletteResult
resolve_roulette natural_number amount bet selection available_capacity =
    let evaluate : ℕ → ℕ = λ n. evaluate_roulette_bet n bet selection in
    let natural_multiplier = evaluate natural_number in
    let deficit = amount * (natural_multiplier - 1) in
    let remapped = ltb 0 natural_multiplier && ltb available_capacity deficit in
    let number = if remapped then walk evaluate 37 natural_number 37 1 else natural_number in
    let multiplier = evaluate number in
    record {
      number = number;
      payout = amount * multiplier;
      payout_multiplier = multiplier;
      remapped = remapped;
    }

-- The same from the seeds.
unfoldable pub resolve_roulette_bet :
    Platform → Text → Text → ℕ → ℕ → RouletteBet → Option ℕ → ℕ → Option RouletteResult
resolve_roulette_bet platform server_seed client_seed nonce amount bet selection
      available_capacity =
    elim (roulette_number platform server_seed client_seed nonce) [
      | none ↦ none
      | some n ↦ some (resolve_roulette n amount bet selection available_capacity)
    ]
