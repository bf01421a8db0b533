-- ===== src/Normalizer/Odds.antt =====
-- packages/oracle/src/normalizers/odds.normalizer.ts. `Number.parseFloat` is a parameter; a number is
-- a fraction, and none is below zero but where it says so. A handicap comes as its text,
-- `String(entry.hdp)`. The identity of the fixture and the time are left out.
pub mod Laws
use sportystake.Base.{
  ℕ, ◌+◌, ◌*◌, ◌/◌, Bool, true, false, ◌||◌, not, Option, none, some, List, [], ◌∷◌, ◌++◌, leb,
  ◌==◌, if◌then◌else◌, Text, codes, text_eq, to_lower, lookup, put, foldl,
}

-- What `parseFloat` gives: nothing finite, a number that is zero or below, or one above zero.
pub data Parsed : Type 0 where
  no_number not_positive : Parsed
  fraction : (numerator scale : ℕ) → Parsed

pub record NormalizedOutcome : Type 0 where
  pub key : Text
  pub label : Text
  pub value_x1000 : ℕ

pub record NormalizedMarket : Type 0 where
  pub market : Text
  pub outcomes : List NormalizedOutcome

-- An entry of the provider; what is missing or empty is `none`.
pub record OddsEntry : Type 0 where
  pub home : Option Text
  pub draw : Option Text
  pub away : Option Text
  pub over : Option Text
  pub under : Option Text
  pub yes_odd : Option Text
  pub no_odd : Option Text
  pub hdp : Option Text

pub record OddsMarket : Type 0 where
  pub name : Text
  pub odds : List OddsEntry

-- `Math.round(parseDecimal(odd) * 1000)`
abbrev pub value_of : Parsed → ℕ
value_of no_number = 1_010
value_of not_positive = 1_010
value_of (fraction numerator scale) =
    if leb numerator scale then 1_010 else (2_000 * numerator + scale) / (2 * scale)

abbrev pub or_text : Option Text → Text → Text
or_text none default = default
or_text (some s) default = s

module _ (parse_float : Text → Parsed) where
  unfoldable pub to_outcome : Text → Text → Text → NormalizedOutcome
  to_outcome key label odd = record {
    key = key;
    label = label;
    value_x1000 = value_of (parse_float odd);
  }

  -- `if (entry.x) outcomes.push(toOutcome(…, entry.x))`
  abbrev pub outcome_if : Text → Text → Option Text → List NormalizedOutcome
  outcome_if key label none = []
  outcome_if key label (some odd) = to_outcome key label odd ∷ []

  abbrev pub market_if : Text → List NormalizedOutcome → List NormalizedMarket
  market_if market [] = []
  market_if market (o ∷ outcomes) = record { market = market; outcomes = o ∷ outcomes } ∷ []

  unfoldable pub normalize_ml : List OddsEntry → List NormalizedMarket
  normalize_ml [] = []
  normalize_ml (entry ∷ _) = market_if (codes "1X2") (
      outcome_if (codes "1") (codes "Home") entry.home
      ++ (outcome_if (codes "X") (codes "Draw") entry.draw
          ++ outcome_if (codes "2") (codes "Away") entry.away))

  -- The key of a line: `n === 1.5 || n === 1`, and so on.
  abbrev pub totals_key : Parsed → Option Text
  totals_key no_number = none
  totals_key not_positive = none
  totals_key (fraction numerator scale) =
      if 2 * numerator == 3 * scale || numerator == scale
      then some (codes "over_under_15")
      else if 2 * numerator == 5 * scale || numerator == 2 * scale
      then some (codes "over_under_25")
      else if 2 * numerator == 7 * scale || numerator == 3 * scale
      then some (codes "over_under_35")
      else none

  abbrev pub totals_of : OddsEntry → Text → Option Text → List NormalizedMarket
  totals_of entry line none = []
  totals_of entry line (some key) = market_if key (
      outcome_if (codes "Over") (codes "Over " ++ line) entry.over
      ++ outcome_if (codes "Under") (codes "Under " ++ line) entry.under)

  unfoldable pub normalize_totals : List OddsEntry → List NormalizedMarket
  normalize_totals [] = []
  normalize_totals (entry ∷ entries) =
      let line = or_text entry.hdp (codes "2.5") in
      totals_of entry line (totals_key (parse_float line)) ++ normalize_totals entries

  unfoldable pub normalize_btts : List OddsEntry → List NormalizedMarket
  normalize_btts [] = []
  normalize_btts (entry ∷ _) = market_if (codes "btts") (
      outcome_if (codes "yes") (codes "Yes") entry.yes_odd
      ++ outcome_if (codes "no") (codes "No") entry.no_odd)

  unfoldable pub normalize_asian_handicap : List OddsEntry → List NormalizedMarket
  normalize_asian_handicap [] = []
  normalize_asian_handicap (entry ∷ _) =
      let hdp = or_text entry.hdp (codes "0") in
      market_if (codes "asian_handicap") (
        outcome_if (codes "home_" ++ hdp) (codes "Home (" ++ (hdp ++ codes ")")) entry.home
        ++ outcome_if (codes "away_" ++ hdp) (codes "Away (" ++ (hdp ++ codes ")")) entry.away)

  unfoldable pub normalize_market : OddsMarket → List NormalizedMarket
  normalize_market m =
      if text_eq m.name (codes "ML")
      then normalize_ml m.odds
      else if text_eq m.name (codes "Totals")
      then normalize_totals m.odds
      else if text_eq m.name (codes "Both Teams to Score")
      then normalize_btts m.odds
      else if text_eq m.name (codes "Asian Handicap")
      then normalize_asian_handicap m.odds
      else []

  unfoldable pub normalize_markets : List OddsMarket → List NormalizedMarket
  normalize_markets [] = []
  normalize_markets (m ∷ ms) = normalize_market m ++ normalize_markets ms

-- The bookmakers by their names, in the order of the object.
abbrev pub Bookmakers : Type 0
Bookmakers = List (Text × List OddsMarket)

-- `new Map(available.map((name) => [name.toLowerCase(), name]))`
unfoldable pub available_by_lower : Bookmakers → List (Text × Text)
available_by_lower = foldl (λ names b. put (to_lower b.0) b.0 names) []

-- `.find((name) => Boolean(name))` over the preferred names; the empty name is none.
abbrev pub named_or : Option Text → Option Text → Option Text
named_or none rest = rest
named_or (some []) rest = rest
named_or (some (c ∷ cs)) rest = some (c ∷ cs)

unfoldable pub find_preferred : List (Text × Text) → List Text → Option Text
find_preferred names [] = none
find_preferred names (p ∷ preferred) =
    named_or (lookup (to_lower p) names) (find_preferred names preferred)

abbrev pub first_name : Bookmakers → Option Text
first_name [] = none
first_name ((name, _) ∷ rest) = some name

-- `preferred.map(…).find(…) ?? available[0]`
unfoldable pub pick_bookmaker : Bookmakers → List Text → Option Text
pick_bookmaker bookmakers preferred =
    named_or (find_preferred (available_by_lower bookmakers) preferred) (first_name bookmakers)

pub record NormalizedOdds : Type 0 where
  pub bookmaker_name : Text
  pub markets : List NormalizedMarket

module _ (parse_float : Text → Parsed) where
  abbrev pub odds_of : Text → Option (List OddsMarket) → Option NormalizedOdds
  odds_of name none = none
  odds_of name (some []) = none
  odds_of name (some (m ∷ ms)) =
      some (record { bookmaker_name = name; markets = normalize_markets parse_float (m ∷ ms) })

  abbrev pub odds_from : Bookmakers → Option Text → Option NormalizedOdds
  odds_from bookmakers none = none
  odds_from bookmakers (some []) = none
  odds_from bookmakers (some (c ∷ cs)) = odds_of (c ∷ cs) (lookup (c ∷ cs) bookmakers)

  unfoldable pub normalize_odds : Bookmakers → List Text → Option NormalizedOdds
  normalize_odds bookmakers preferred = odds_from bookmakers (pick_bookmaker bookmakers preferred)
