-- ===== src/Settlement/Outcome.antt =====
-- How one market type resolves from a final score (src/lib/server/settlement.ts, the resolvers).
-- Goals are natural numbers. A line of an over/under market is kept in tenths, as its key has it.
pub mod Handicap
pub mod Laws
use sportystake.Base.{
  ℕ, ◌+◌, ◌*◌, Bool, true, false, ◌&&◌, ◌||◌, Option, none, some, List, [], ◌∷◌, ltb, ◌==◌,
  if◌then◌else◌, Text, codes, text_eq, strip_prefix, digits_of, after_digits, value_from, trim,
  to_upper,
}

-- 1X2: 0 is a home win, 1 a draw, 2 an away win.
unfoldable pub resolve_1x2 : ℕ → ℕ → ℕ
resolve_1x2 home away = if ltb away home then 0 else if ltb home away then 2 else 1

-- `homeScore + awayScore > line`, for a line in tenths
unfoldable pub resolve_over_under : ℕ → ℕ → ℕ → ℕ
resolve_over_under tenths home away = if ltb tenths (10 * (home + away)) then 0 else 1

unfoldable pub resolve_btts : ℕ → ℕ → ℕ
resolve_btts home away = if ltb 0 home && ltb 0 away then 0 else 1

-- `/^over_under_(\d+)$/`, with the number that the digits spell
unfoldable pub over_under_line : Text → Option ℕ
over_under_line key = elim (strip_prefix (codes "over_under_") key) [
  | none ↦ none
  | some rest ↦ elim (digits_of rest) [
    | [] ↦ none
    | d ∷ ds ↦ elim (after_digits rest) [ [] ↦ some (value_from 0 (d ∷ ds)) | _ ∷ _ ↦ none ]
  ]
]

unfoldable pub resolve_over_under_key : Text → ℕ → ℕ → Option ℕ
unfolding over_under_line resolve_over_under
resolve_over_under_key key home away = elim (over_under_line key) [
  | none ↦ none
  | some tenths ↦ some (resolve_over_under tenths home away)
]

abbrev pub key_1x2 : Text
key_1x2 = codes "1X2"

abbrev pub key_btts : Text
key_btts = codes "btts"

abbrev pub key_asian_handicap : Text
key_asian_handicap = codes "asian_handicap"

abbrev pub key_double_chance : Text
key_double_chance = codes "double_chance"

-- `resolveScoreBasedOutcome`; `none` is `null`
unfoldable pub resolve_score_based_outcome : Text → ℕ → ℕ → Option ℕ
unfolding resolve_1x2 resolve_btts resolve_over_under_key
resolve_score_based_outcome market_type home away =
    if text_eq market_type key_1x2
    then some (resolve_1x2 home away)
    else if text_eq market_type key_btts
    then some (resolve_btts home away)
    else resolve_over_under_key market_type home away

-- The verdicts on one bet. `push` is for handicaps only.
pub data Verdict : Type 0 where
  win lose push unsupported : Verdict

-- `resolveDoubleChanceBet`
unfoldable pub resolve_double_chance_bet : Text → ℕ → ℕ → Verdict
unfolding trim to_upper
resolve_double_chance_bet selection_label home away =
    let label = to_upper (trim selection_label) in
    let home_won = ltb away home in
    let away_won = ltb home away in
    let drawn = if home_won then false else if away_won then false else true in
    if text_eq label (codes "1X")
    then (if home_won || drawn then win else lose)
    else if text_eq label (codes "12")
    then (if home_won || away_won then win else lose)
    else if text_eq label (codes "X2")
    then (if drawn || away_won then win else lose)
    else unsupported
