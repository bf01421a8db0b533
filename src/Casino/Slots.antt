-- ===== src/Casino/Slots.antt =====
-- `resolveSlots` (src/lib/server/casino.ts). A symbol is its index, 6 is the wild one.
pub mod Rows
pub mod Laws
use mathlib.Core.List.{reverse}
use sportystake.Base.{
  ℕ, zero, suc, ◌+◌, ◌-◌, ◌*◌, ◌/◌, ◌≤◌, Bool, true, false, ◌&&◌, ◌||◌, Option, none, some, List,
  [], ◌∷◌, ◌++◌, ltb, leb, ◌==◌, if◌then◌else◌, Text, min, get_elem?, length,
}
use sportystake.Casino.Draws.{Platform, weighted_cell_index}

abbrev pub wild_index : ℕ
wild_index = 6

-- cherry, lemon, star, diamond, bell, seven, wild
abbrev pub slot_weights : List ℕ
slot_weights = 286_204 ∷ 220_290 ∷ 130_507 ∷ 9_524 ∷ 59_510 ∷ 695 ∷ 1 ∷ []

abbrev pub slot_payouts : List ℕ
slot_payouts = 2 ∷ 3 ∷ 5 ∷ 15 ∷ 8 ∷ 25 ∷ 50 ∷ []

-- `SLOT_PAYOUTS[SLOT_SYMBOLS[first]] ?? 1`
unfoldable pub symbol_payout : ℕ → ℕ
symbol_payout first = elim (get_elem? slot_payouts first) [ none ↦ 1 | some payout ↦ payout ]

-- How many symbols behind the first go on with it.
unfoldable pub run_length : ℕ → List ℕ → ℕ
run_length first [] = 0
run_length first (c ∷ cs) =
    let rest = run_length first cs in if c == first || c == wild_index then suc rest else 0

-- The multiplier of a row, which is never empty.
unfoldable pub evaluate_slot_row : List ℕ → ℕ
unfolding run_length symbol_payout
evaluate_slot_row [] = 0
evaluate_slot_row (first ∷ cs) =
    let matches = 1 + run_length first cs in
    if ltb matches 3 then 0 else symbol_payout first * matches

-- The first index from `candidate` on that is neither `first` nor the wild one.
unfoldable pub non_matching_from : ℕ → ℕ → ℕ → ℕ
non_matching_from zero candidate first = 0
non_matching_from (suc steps) candidate first =
    let rest = non_matching_from steps (suc candidate) first in
    if candidate == first || candidate == wild_index then rest else candidate

unfoldable pub first_non_matching_symbol : ℕ → ℕ
unfolding non_matching_from
first_non_matching_symbol = non_matching_from 7 0

-- `row[2] = firstNonMatchingSymbol(naturalRow[0])`
unfoldable pub break_row : List ℕ → List ℕ
break_row (a ∷ b ∷ _ ∷ rest) = a ∷ b ∷ first_non_matching_symbol a ∷ rest
break_row row = row

-- The reels so far with the indices of the rows that win and of those that were remapped.
pub record Spin : Type 0 where
  pub reels : List (List ℕ)
  pub win_lines : List ℕ
  pub remapped_rows : List ℕ
  pub confirmed_multiplier : ℕ

-- What exceeds the stake: `tentativePayout > amt ? tentativePayout - amt : 0n`
abbrev pub excess : ℕ → ℕ → ℕ → ℕ
excess amount per_line multiplier =
    if ltb amount (per_line * multiplier) then per_line * multiplier - amount else 0

abbrev pub show_row : Spin → ℕ → List ℕ → ℕ → Spin
show_row s r row multiplier = record s {
  reels = s.reels ++ row ∷ [];
  win_lines = if ltb 0 multiplier then s.win_lines ++ r ∷ [] else s.win_lines;
}

-- The body of the loop over the rows, for row `r`.
unfoldable pub slot_step : ℕ → ℕ → ℕ → ℕ → Spin → ℕ → List ℕ → Spin
slot_step amount per_line rows_to_evaluate available_capacity s r natural_row =
    let natural = evaluate_slot_row natural_row in
    let tentative = s.confirmed_multiplier + natural in
    let broken = break_row natural_row in
    if leb rows_to_evaluate r
    then record s { reels = s.reels ++ natural_row ∷ [] }
    else if natural == 0
    then show_row s r natural_row natural
    else if ltb available_capacity (excess amount per_line tentative)
    then show_row (record s { remapped_rows = s.remapped_rows ++ r ∷ [] }) r broken
        (evaluate_slot_row broken)
    else show_row (record s { confirmed_multiplier = tentative }) r natural_row natural

unfoldable pub slot_rows : ℕ → ℕ → ℕ → ℕ → Spin → ℕ → List (List ℕ) → Spin
unfolding slot_step
slot_rows amount per_line rows_to_evaluate available_capacity s r [] = s
slot_rows amount per_line rows_to_evaluate available_capacity s r (row ∷ rows) =
    slot_rows amount per_line rows_to_evaluate available_capacity
      (slot_step amount per_line rows_to_evaluate available_capacity s r row) (suc r) rows

abbrev pub no_spin : Spin
no_spin = record { reels = []; win_lines = []; remapped_rows = []; confirmed_multiplier = 0 }

-- `Math.max(1, opts.lines)`
abbrev pub line_count : ℕ → ℕ
line_count lines = if ltb lines 1 then 1 else lines

pub record SlotResult : Type 0 where
  pub payout : ℕ
  pub spin : Spin

unfoldable pub settle_slots : ℕ → ℕ → ℕ → List (List ℕ) → SlotResult
settle_slots amount lines available_capacity natural_rows =
    let per_line = amount / line_count lines in
    let spin =
      slot_rows amount per_line (min 3 (line_count lines)) available_capacity no_spin 0
        natural_rows in
    record { payout = per_line * spin.confirmed_multiplier; spin = spin }

-- The cells `cell` to `cell + n - 1`; `none` when the fuel of a draw is spent.
unfoldable pub draw_cells : Platform → ℕ → Text → Text → ℕ → ℕ → ℕ → Option (List ℕ)
unfolding weighted_cell_index
draw_cells platform fuel server_seed client_seed nonce cell zero = some []
draw_cells platform fuel server_seed client_seed nonce cell (suc n) =
    let rest = draw_cells platform fuel server_seed client_seed nonce (suc cell) n in
    elim (weighted_cell_index platform fuel server_seed client_seed nonce cell slot_weights) [
      | none ↦ none
      | some i ↦ elim rest [ none ↦ none | some is ↦ some (i ∷ is) ]
    ]

-- The natural rows `r` to `r + n - 1` of five cells.
unfoldable pub draw_rows : Platform → ℕ → Text → Text → ℕ → ℕ → ℕ → Option (List (List ℕ))
unfolding draw_cells
draw_rows platform fuel server_seed client_seed nonce r zero = some []
draw_rows platform fuel server_seed client_seed nonce r (suc n) =
    let rest = draw_rows platform fuel server_seed client_seed nonce (suc r) n in
    elim (draw_cells platform fuel server_seed client_seed nonce (r * 5) 5) [
      | none ↦ none
      | some row ↦ elim rest [ none ↦ none | some rows ↦ some (row ∷ rows) ]
    ]

unfoldable pub resolve_slots : Platform → ℕ → Text → Text → ℕ → ℕ → ℕ → ℕ → Option SlotResult
unfolding draw_rows
resolve_slots platform fuel server_seed client_seed nonce amount lines available_capacity =
    elim (draw_rows platform fuel server_seed client_seed nonce 0 3) [
      | none ↦ none
      | some natural_rows ↦ some (settle_slots amount lines available_capacity natural_rows)
    ]
