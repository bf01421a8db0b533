-- ===== src/Settlement/Outcome/Laws.antt =====
-- What the resolvers of src/lib/server/settlement.ts promise.
use sportystake.Base.{
  ℕ, ◌+◌, ◌*◌, ◌≤◌, ◌<◌, ◌≡◌, refl, ◌↔◌, List, ◌∷◌, ◌++◌, Option, none, some, arith, Text, codes,
  ltb, if◌then◌else◌, trim_fixed, spell, IsDigits, digits_of-spell_all, after_digits-spell_all,
  value_from,
}
use sportystake.Settlement.Outcome.{
  Verdict, win, lose, push, unsupported, resolve_double_chance_bet, resolve_score_based_outcome,
}
use sportystake.Settlement.Outcome.Handicap.{
  home_side, away_side, Line, tolerance, home_total, away_total, settle_line, parse_magnitude,
  parse_sign, parse_label, judge, resolve_asian_handicap_bet,
}

-- The verdict on the other side of the same line.
abbrev pub mirror : Verdict → Verdict
mirror win = lose
mirror lose = win
mirror push = push
mirror unsupported = unsupported

judge-mirror :
    (o : Option Line) (home away : ℕ)
    → judge (elim o [ none ↦ none | some line ↦ some (away_side, line) ]) home away
      ≡ mirror (judge (elim o [ none ↦ none | some line ↦ some (home_side, line) ]) home away)
unfolding judge
judge-mirror none home away = refl
judge-mirror (some line) home away = ground arith

-- A label's side and the text behind its parenthesis are read apart.
parse_label-sides :
    (t : Text) (home away : ℕ)
    → judge (parse_label (codes "Away (" ++ t)) home away
      ≡ mirror (judge (parse_label (codes "Home (" ++ t)) home away)
unfolding parse_label
parse_label-sides t home away =
    judge-mirror (parse_magnitude (parse_sign t).0 (parse_sign t).1) home away

-- Of two handicap bets on the same line, one on each team, one wins and the other loses, or both
-- are pushes, or both are unsupported. The labels are those of the odds normalizer, with any text
-- for the line.
pub resolve_asian_handicap_bet-mirror :
    (line : Text) (home away : ℕ)
    → resolve_asian_handicap_bet (codes "Away (" ++ line ++ codes ")") home away
      ≡ mirror (resolve_asian_handicap_bet (codes "Home (" ++ line ++ codes ")") home away)
unfolding resolve_asian_handicap_bet
resolve_asian_handicap_bet-mirror line home away =
    rw (trim_fixed b'A' (codes "way (" ++ line) b')' refl refl) (
      rw (trim_fixed b'H' (codes "ome (" ++ line) b')' refl refl)
        (parse_label-sides (line ++ codes ")") home away))

abbrev pub wins : Verdict → ℕ
wins win = 1
wins _ = 0

-- On every score two of the three double chance bets win and the third loses.
pub resolve_double_chance_bet-two_win :
    (home away : ℕ)
    → wins (resolve_double_chance_bet (codes "1X") home away)
        + wins (resolve_double_chance_bet (codes "12") home away)
        + wins (resolve_double_chance_bet (codes "X2") home away)
      ≡ 2
unfolding resolve_double_chance_bet
resolve_double_chance_bet-two_win home away = ground arith

-- For a line of at most nine decimals the tolerance decides nothing.
pub settle_line_exact :
    (l : Line) (home away : ℕ)
    → 0 < l.scale
    → l.scale ≤ tolerance
    → ((settle_line home_side l home away ≡ win) ↔ (away_total l away < home_total l home))
      × ((settle_line home_side l home away ≡ push) ↔ (away_total l away ≡ home_total l home))
      × ((settle_line home_side l home away ≡ lose) ↔ (home_total l home < away_total l away))
unfolding settle_line
settle_line_exact l home away pos small = ground arith

-- The key `over_under_<digits>` is read as the line that its digits spell, in tenths of a goal.
pub resolve_over_under_digits :
    (d : ℕ) (ds : List ℕ) (home away : ℕ)
    → IsDigits (d ∷ ds)
    → resolve_score_based_outcome (codes "over_under_" ++ spell (d ∷ ds)) home away
      ≡ some (if ltb (value_from 0 (d ∷ ds)) (10 * (home + away)) then 0 else 1)
unfolding resolve_score_based_outcome
resolve_over_under_digits d ds home away h =
    ground (arith, digits_of-spell_all (d ∷ ds) h, after_digits-spell_all (d ∷ ds) h)
