-- ===== src/Settlement/Outcome/Handicap.antt =====
-- `resolveAsianHandicapBet` (src/lib/server/settlement.ts). A line is the decimal number that its
-- label spells, kept exactly as sign, numerator and power of ten, with the tolerance 1e-9 of the
-- source in both tests. The source computes in doubles, which agrees for the lines that have up to
-- eight decimals and an integer part of up to five digits.
use sportystake.Base.{
  ℕ, ◌+◌, ◌-◌, ◌*◌, ◌%◌, ◌^◌, Bool, true, false, Option, none, some, List, [], ◌∷◌, ◌++◌, min, ltb,
  leb, ◌==◌, if◌then◌else◌, Text, codes, strip_prefix, digits_of, after_digits, value_from, length,
  trim,
}
use sportystake.Settlement.Outcome.{Verdict, win, lose, push, unsupported}

pub data Side : Type 0 where
  home_side away_side : Side

-- The line is `numerator / scale`, below zero if `negative`.
pub record Line : Type 0 where
  pub negative : Bool
  pub numerator : ℕ
  pub scale : ℕ

-- `/^(Home|Away) \(/`
unfoldable pub parse_side : Text → Option (Side × Text)
parse_side s = elim (strip_prefix (codes "Home (") s) [
  | some rest ↦ some (home_side, rest)
  | none ↦ elim (strip_prefix (codes "Away (") s) [
    | some rest ↦ some (away_side, rest)
    | none ↦ none
  ]
]

-- `[-+]?`
unfoldable pub parse_sign : Text → Bool × Text
parse_sign [] = (false, [])
parse_sign (c ∷ cs) =
    if c == b'-' then (true, cs) else if c == b'+' then (false, cs) else (false, c ∷ cs)

-- Exactly `)`, to the end of the text.
abbrev pub closes : Text → Bool
closes [] = false
closes (c ∷ []) = c == b')'
closes (c ∷ _ ∷ _) = false

-- `(?:\.\d+)?\)$` behind the whole digits
unfoldable pub parse_fraction : Bool → List ℕ → Text → Option Line
parse_fraction neg whole [] = none
parse_fraction neg whole (c ∷ cs) =
    if c == b'.'
    then (elim (digits_of cs) [
      | [] ↦ none
      | d ∷ ds ↦
          if closes (after_digits cs)
          then some (record {
            negative = neg;
            numerator = value_from 0 (whole ++ d ∷ ds);
            scale = 10 ^ length (d ∷ ds);
          })
          else none
    ])
    else if closes (c ∷ cs)
    then some (record { negative = neg; numerator = value_from 0 whole; scale = 1 })
    else none

-- `\d+(?:\.\d+)?\)$`
unfoldable pub parse_magnitude : Bool → Text → Option Line
unfolding parse_fraction
parse_magnitude neg s = elim (digits_of s) [
  | [] ↦ none
  | d ∷ ds ↦ parse_fraction neg (d ∷ ds) (after_digits s)
]

-- The whole pattern, on a trimmed label.
unfoldable pub parse_label : Text → Option (Side × Line)
unfolding parse_side parse_sign parse_magnitude
parse_label s = elim (parse_side s) [
  | none ↦ none
  | some (side, rest) ↦
      let (neg, tail) = parse_sign rest in
      elim (parse_magnitude neg tail) [ none ↦ none | some line ↦ some (side, line) ]
]

-- The least number that a double takes for `Infinity`.
unfoldable pub overflow_bound : ℕ
overflow_bound = 2 ^ 1024 - 2 ^ 970

abbrev pub tolerance : ℕ
tolerance = 10 ^ 9

-- `Math.abs(line * 2 - Math.round(line * 2)) > 1e-9`
unfoldable pub is_quarter : Line → Bool
is_quarter l = let r = (2 * l.numerator) % l.scale in ltb l.scale (min r (l.scale - r) * tolerance)

-- `homeScore - awayScore + line` and zero, both scaled and moved above zero
abbrev pub home_total : Line → ℕ → ℕ
home_total l home = home * l.scale + (if l.negative then 0 else l.numerator)

abbrev pub away_total : Line → ℕ → ℕ
away_total l away = away * l.scale + (if l.negative then l.numerator else 0)

-- `Math.abs(adjustedHomeMargin) < 1e-9`
unfoldable pub is_level : Line → ℕ → ℕ → Bool
is_level l home away =
    let h = home_total l home in
    let a = away_total l away in ltb ((h - a + (a - h)) * tolerance) l.scale

unfoldable pub settle_line : Side → Line → ℕ → ℕ → Verdict
unfolding is_level
settle_line side l home away =
    let home_covers = ltb (away_total l away) (home_total l home) in
    if is_level l home away then push else elim side [
      | home_side ↦ if home_covers then win else lose
      | away_side ↦ if home_covers then lose else win
    ]

-- The rest of the function, on what the pattern found.
unfoldable pub judge : Option (Side × Line) → ℕ → ℕ → Verdict
unfolding is_quarter overflow_bound settle_line
judge none home away = unsupported
judge (some (side, line)) home away =
    if leb (overflow_bound * line.scale) line.numerator
    then unsupported
    else if is_quarter line
    then unsupported
    else settle_line side line home away

unfoldable pub resolve_asian_handicap_bet : Text → ℕ → ℕ → Verdict
resolve_asian_handicap_bet selection_label home away =
    judge (parse_label (trim selection_label)) home away
