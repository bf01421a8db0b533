-- ===== src/Normalizer/Odds/Laws.antt =====
-- What the normalizer emits can be settled.
use native.Mathlib.Nat.{le-div_iff_mul-le}
use sportystake.Base.{
  ℕ, ◌+◌, ◌*◌, ◌≤◌, ◌<◌, ◌≡◌, refl, subst, ◌≢◌, ◌⊎◌, inl, inr, Option, none, some, List, [], ◌∷◌,
  ◌++◌, All, All-append, arith, leb, Text, codes, text_eq, Bool-cases,
}
use sportystake.Settlement.Outcome.{resolve_score_based_outcome}
use sportystake.Settlement.Outcome.Handicap.{resolve_asian_handicap_bet}
use sportystake.Settlement.Outcome.Laws.{mirror, resolve_asian_handicap_bet-mirror}
use sportystake.Normalizer.Odds.{
  Parsed, no_number, not_positive, fraction, NormalizedOutcome, NormalizedMarket, OddsEntry,
  OddsMarket, value_of, or_text, to_outcome, outcome_if, market_if, normalize_ml, totals_key,
  totals_of, normalize_totals, normalize_btts, normalize_asian_handicap, normalize_market,
  normalize_markets, Bookmakers, pick_bookmaker, NormalizedOdds, odds_of, odds_from, normalize_odds,
}

abbrev pub home_label : Text → Text
home_label hdp = codes "Home (" ++ (hdp ++ codes ")")

abbrev pub away_label : Text → Text
away_label hdp = codes "Away (" ++ (hdp ++ codes ")")

-- A market is resolved from every score.
abbrev pub IsResolved : Text → Type 0
IsResolved market =
    (home away : ℕ) → (i : ℕ) × (resolve_score_based_outcome market home away ≡ some i)

-- The outcomes are the two sides of one handicap, which the settlement judges against each other.
abbrev pub IsHandicap : List NormalizedOutcome → Type 0
IsHandicap outcomes =
    (hdp : Text) × All (λ o. (o.label ≡ home_label hdp) ⊎ (o.label ≡ away_label hdp)) outcomes
    × ((home away : ℕ)
        → resolve_asian_handicap_bet (away_label hdp) home away
          ≡ mirror (resolve_asian_handicap_bet (home_label hdp) home away))

abbrev pub IsSettleable : Text → List NormalizedOutcome → Type 0
IsSettleable market outcomes =
    IsResolved market ⊎ ((market ≡ codes "asian_handicap") × IsHandicap outcomes)

abbrev pub IsSound : NormalizedMarket → Type 0
IsSound m =
    (m.outcomes ≢ [])
    × All (λ o. 1_000 ≤ o.value_x1000) m.outcomes
    × IsSettleable m.market m.outcomes

-- The denominator of a number is not zero.
abbrev pub IsNumber : Parsed → Type 0
IsNumber no_number = Unit
IsNumber not_positive = Unit
IsNumber (fraction numerator scale) = 0 < scale

value_of-le : (p : Parsed) → IsNumber p → 1_000 ≤ value_of p
value_of-le no_number h = omega arith
value_of-le not_positive h = omega arith
value_of-le (fraction numerator scale) h =
    let pos : 0 < 2 * scale = omega arith in
    let exact = le-div_iff_mul-le {k = 2 * scale} {x = 1_000} {y = 2_000 * numerator + scale} pos in
    elim (Bool-cases (leb numerator scale)) [
      | inl e ↦ rw e (omega arith)
      | inr e ↦ rw e (exact.1 (ground (arith, e)))
    ]

module _ (parse_float : Text → Parsed) (numbers : (s : Text) → IsNumber (parse_float s)) where
  outcome_if-le :
      (key label : Text) (odd : Option Text)
      → All (λ o. 1_000 ≤ o.value_x1000) (outcome_if parse_float key label odd)
  unfolding to_outcome
  outcome_if-le key label none = tt
  outcome_if-le key label (some odd) = (value_of-le (parse_float odd) (numbers odd), tt)

  market_if-IsSound :
      (market : Text) (outcomes : List NormalizedOutcome)
      → IsSettleable market outcomes
      → All (λ o. 1_000 ≤ o.value_x1000) outcomes
      → All IsSound (market_if parse_float market outcomes)
  market_if-IsSound market [] s h = tt
  market_if-IsSound market (o ∷ outcomes) s h = (((λ e. cc), h, s), tt)

  two-le :
      (k1 l1 : Text) (o1 : Option Text) (k2 l2 : Text) (o2 : Option Text)
      → All
          (λ o. 1_000 ≤ o.value_x1000)
          (outcome_if parse_float k1 l1 o1 ++ outcome_if parse_float k2 l2 o2)
  two-le k1 l1 o1 k2 l2 o2 =
      All-append _ (outcome_if parse_float k1 l1 o1) _ (outcome_if-le k1 l1 o1)
        (outcome_if-le k2 l2 o2)

  normalize_ml-IsSound : (entries : List OddsEntry) → All IsSound (normalize_ml parse_float entries)
  unfolding normalize_ml resolve_score_based_outcome
  normalize_ml-IsSound [] = tt
  normalize_ml-IsSound (entry ∷ rest) =
      market_if-IsSound (codes "1X2") _ (inl (λ home away. (_, refl))) (
        All-append _ (outcome_if parse_float (codes "1") (codes "Home") entry.home) _
          (outcome_if-le (codes "1") (codes "Home") entry.home)
          (two-le (codes "X") (codes "Draw") entry.draw (codes "2") (codes "Away") entry.away))

  totals_key-cases :
      (p : Parsed)
      → (totals_key parse_float p ≡ none)
        ⊎ (totals_key parse_float p ≡ some (codes "over_under_15"))
        ⊎ (totals_key parse_float p ≡ some (codes "over_under_25"))
        ⊎ (totals_key parse_float p ≡ some (codes "over_under_35"))
  totals_key-cases no_number = inl refl
  totals_key-cases not_positive = inl refl
  totals_key-cases (fraction numerator scale) = ground arith

  totals_of-IsSound :
      (entry : OddsEntry) (line key : Text)
      → IsResolved key
      → All IsSound (totals_of parse_float entry line (some key))
  totals_of-IsSound entry line key s = market_if-IsSound key _ (inl s) (
      two-le (codes "Over") (codes "Over " ++ line) entry.over (codes "Under")
        (codes "Under " ++ line) entry.under)

  normalize_totals-IsSound :
      (entries : List OddsEntry) → All IsSound (normalize_totals parse_float entries)
  unfolding normalize_totals resolve_score_based_outcome
  normalize_totals-IsSound [] = tt
  normalize_totals-IsSound (entry ∷ entries) =
      let line = or_text entry.hdp (codes "2.5") in
      let rest = normalize_totals-IsSound entries in
      elim (totals_key-cases (parse_float line)) [
        | inl e ↦ rw e rest
        | inr (inl e) ↦
            rw e (
              All-append IsSound _ _ (totals_of-IsSound entry line _ (λ home away. (_, refl))) rest)
        | inr (inr (inl e)) ↦
            rw e (
              All-append IsSound _ _ (totals_of-IsSound entry line _ (λ home away. (_, refl))) rest)
        | inr (inr (inr e)) ↦
            rw e (
              All-append IsSound _ _ (totals_of-IsSound entry line _ (λ home away. (_, refl))) rest)
      ]

  normalize_btts-IsSound :
      (entries : List OddsEntry) → All IsSound (normalize_btts parse_float entries)
  unfolding normalize_btts resolve_score_based_outcome
  normalize_btts-IsSound [] = tt
  normalize_btts-IsSound (entry ∷ rest) =
      market_if-IsSound (codes "btts") _ (inl (λ home away. (_, refl)))
        (two-le (codes "yes") (codes "Yes") entry.yes_odd (codes "no") (codes "No") entry.no_odd)

  sides-IsHandicap :
      (hdp : Text) (home away : Option Text)
      → IsHandicap (
          outcome_if parse_float (codes "home_" ++ hdp) (home_label hdp) home
          ++ outcome_if parse_float (codes "away_" ++ hdp) (away_label hdp) away)
  unfolding to_outcome
  sides-IsHandicap hdp none none = (hdp, tt, resolve_asian_handicap_bet-mirror hdp)
  sides-IsHandicap hdp (some h) none = (hdp, (inl refl, tt), resolve_asian_handicap_bet-mirror hdp)
  sides-IsHandicap hdp none (some a) = (hdp, (inr refl, tt), resolve_asian_handicap_bet-mirror hdp)
  sides-IsHandicap hdp (some h) (some a) =
      (hdp, (inl refl, (inr refl, tt)), resolve_asian_handicap_bet-mirror hdp)

  normalize_asian_handicap-IsSound :
      (entries : List OddsEntry) → All IsSound (normalize_asian_handicap parse_float entries)
  unfolding normalize_asian_handicap
  normalize_asian_handicap-IsSound [] = tt
  normalize_asian_handicap-IsSound (entry ∷ rest) =
      market_if-IsSound (codes "asian_handicap") _
        (inr (refl, sides-IsHandicap (or_text entry.hdp (codes "0")) entry.home entry.away))
        (two-le _ _ entry.home _ _ entry.away)

  normalize_market-IsSound : (m : OddsMarket) → All IsSound (normalize_market parse_float m)
  unfolding normalize_market
  normalize_market-IsSound m = elim (Bool-cases (text_eq m.name (codes "ML"))) [
    | inl e ↦ rw e (normalize_ml-IsSound m.odds)
    | inr e ↦ rw e (elim (Bool-cases (text_eq m.name (codes "Totals"))) [
      | inl f ↦ rw f (normalize_totals-IsSound m.odds)
      | inr f ↦ rw f (elim (Bool-cases (text_eq m.name (codes "Both Teams to Score"))) [
        | inl g ↦ rw g (normalize_btts-IsSound m.odds)
        | inr g ↦ rw g (elim (Bool-cases (text_eq m.name (codes "Asian Handicap"))) [
          | inl h ↦ rw h (normalize_asian_handicap-IsSound m.odds)
          | inr h ↦ rw h tt
        ])
      ])
    ])
  ]

  normalize_markets-IsSound :
      (ms : List OddsMarket) → All IsSound (normalize_markets parse_float ms)
  unfolding normalize_markets
  normalize_markets-IsSound [] = tt
  normalize_markets-IsSound (m ∷ ms) =
      All-append IsSound (normalize_market parse_float m) _ (normalize_market-IsSound m)
        (normalize_markets-IsSound ms)

  odds_of-IsSound :
      (name : Text) (found : Option (List OddsMarket)) (o : NormalizedOdds)
      → odds_of parse_float name found ≡ some o
      → All IsSound o.markets
  odds_of-IsSound name none o e = cc
  odds_of-IsSound name (some []) o e = cc
  odds_of-IsSound name (some (m ∷ ms)) o e =
      let same : normalize_markets parse_float (m ∷ ms) ≡ o.markets = ground (arith, e) in
      subst (All IsSound) same (normalize_markets-IsSound (m ∷ ms))

  odds_from-IsSound :
      (bookmakers : Bookmakers) (name : Option Text) (o : NormalizedOdds)
      → odds_from parse_float bookmakers name ≡ some o
      → All IsSound o.markets
  odds_from-IsSound bookmakers none o e = cc
  odds_from-IsSound bookmakers (some []) o e = cc
  odds_from-IsSound bookmakers (some (c ∷ cs)) o e = odds_of-IsSound (c ∷ cs) _ o e

  -- Every market of normalized odds has outcomes, each at odds of 1.000 or more; and the settlement
  -- resolves it from every score, or it is a handicap whose outcomes are sides of one line, and on
  -- every score the settlement lets one side win where the other loses, and takes both for a push or
  -- both for unsupported. The condition is that a text that parseFloat
  -- reads as a number has a denominator other than zero.
  pub normalize_odds-IsSound :
      (bookmakers : Bookmakers) (preferred : List Text) (o : NormalizedOdds)
      → normalize_odds parse_float bookmakers preferred ≡ some o
      → All IsSound o.markets
  unfolding normalize_odds
  normalize_odds-IsSound bookmakers preferred o e =
      odds_from-IsSound bookmakers (pick_bookmaker bookmakers preferred) o e
