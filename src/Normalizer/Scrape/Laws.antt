-- ===== src/Normalizer/Scrape/Laws.antt =====
-- What a scraped row says of its match, before and while it is played.
use mathlib.Core.List.{append_assoc}
use sportystake.Base.{
  ℕ, suc, ◌+◌, ◌≤◌, ◌<◌, ◌≡◌, refl, ap, subst, ◌∙◌, false, some, [], ◌∷◌, ◌++◌, arith, Text, codes,
  starts, includes, trim, take, drop, length, length-append,
}
use sportystake.Normalizer.Scrape.{
  hash_str, index_of, split_match, ScraperRow, ScraperLiveRow, NormalizedFixture,
  scraper_row_to_fixture, scraper_live_row_to_fixture,
}

hash_str-lt : (s : Text) → (1_000_000 ≤ hash_str s) × (hash_str s < 2_000_000)
unfolding hash_str
hash_str-lt s = (omega arith, omega arith)

-- Whether a text starts with a part shows in as many units as the part has.
starts-append :
    (part s rest : Text) → length part ≤ length s → starts part (s ++ rest) ≡ starts part s
starts-append [] s rest h = refl
starts-append (p ∷ part) [] rest h = absurd (omega arith)
starts-append (p ∷ part) (c ∷ s) rest h = ground (arith, starts-append part s rest (omega arith))

-- The separator is found behind the home team.
index_of-vs :
    (home away : Text)
    → includes (home ++ codes " vs") (codes " vs ") ≡ false
    → index_of (home ++ (codes " vs " ++ away)) (codes " vs ") ≡ some (length home)
unfolding index_of includes
index_of-vs [] away h = refl
index_of-vs (c ∷ home) away h =
    let part = codes " vs " in
    let shorter = c ∷ (home ++ codes " vs") in
    let no_start : starts part shorter ≡ false = ground (arith, h) in
    let no_rest : includes (home ++ codes " vs") part ≡ false = ground (arith, h) in
    let long : 4 ≤ length shorter = omega (arith, length-append {0} home (codes " vs")) in
    let whole : shorter ++ (b' ' ∷ away) ≡ c ∷ (home ++ (part ++ away)) =
      ap (◌∷◌ c) (append_assoc home (codes " vs") (b' ' ∷ away)) in
    let still : starts part (c ∷ (home ++ (part ++ away))) ≡ false =
      subst (λ t. starts part t ≡ false) whole
        (starts-append part shorter (b' ' ∷ away) long ∙ no_start) in
    let later = index_of-vs home away no_rest in rw (still, later) refl

take-append : (s rest : Text) → take (length s) (s ++ rest) ≡ s
take-append [] rest = refl
take-append (c ∷ s) rest = ap (◌∷◌ c) (take-append s rest)

drop-append : (s rest : Text) (n : ℕ) → drop (length s + n) (s ++ rest) ≡ drop n rest
drop-append [] rest n = let none_read : 0 + n ≡ n = omega arith in rw none_read refl
drop-append (c ∷ s) rest n =
    let later : suc (length s) + n ≡ suc (length s + n) = omega arith in
    rw later (drop-append s rest n)

-- The teams of "home vs away" are the two texts, if neither begins or ends with white space and the
-- separator stands in no place before its own.
pub split_match-vs :
    (home away : Text)
    → trim home ≡ home
    → trim away ≡ away
    → includes (home ++ codes " vs") (codes " vs ") ≡ false
    → split_match (home ++ (codes " vs " ++ away)) ≡ record { home = home; away = away }
unfolding split_match
split_match-vs home away h a clear =
    rw
      (
        index_of-vs home away clear,
        take-append home (codes " vs " ++ away),
        drop-append home (codes " vs " ++ away) 4,
        h,
        a,
      )
      refl

-- What both fixtures of a match have of a feed that names it "home vs away".
abbrev pub IsNamed : Text → Text → NormalizedFixture → Type 0
IsNamed home away fixture =
    (fixture.home_team ≡ home)
    × (fixture.away_team ≡ away)
    × (fixture.home_team_id ≡ hash_str home)
    × (fixture.away_team_id ≡ hash_str away)
    × (1_000_000 ≤ hash_str home)
    × (hash_str home < 2_000_000)
    × (1_000_000 ≤ hash_str away)
    × (hash_str away < 2_000_000)

-- Let the feed name a match "home vs away", where neither name begins or ends with white space, and
-- " vs " stands in no place before that between the names; and let its live row have the same name,
-- match id, league and country. Then the fixture before the match and that of the live row have these
-- two teams, with the ids that their names hash to, between 1,000,000 and 1,999,999; and both have one
-- external id, league id and country.
pub scraped_fixture_lem :
    (row : ScraperRow) (live : ScraperLiveRow) (home away : Text)
    → row.match_name ≡ home ++ (codes " vs " ++ away)
    → live.row.match_name ≡ row.match_name
    → live.row.match_id ≡ row.match_id
    → live.row.league ≡ row.league
    → live.row.country ≡ row.country
    → trim home ≡ home
    → trim away ≡ away
    → includes (home ++ codes " vs") (codes " vs ") ≡ false
    → let before = scraper_row_to_fixture row in
      let during = scraper_live_row_to_fixture live in
      IsNamed home away before
      × IsNamed home away during
      × (during.external_id ≡ before.external_id)
      × (during.league_id ≡ before.league_id)
      × (during.country ≡ before.country)
unfolding scraper_row_to_fixture scraper_live_row_to_fixture
scraped_fixture_lem row live home away named same id league country h a clear =
    let teams : split_match row.match_name ≡ record { home = home; away = away } =
      rw named (split_match-vs home away h a clear) in
    let (home_low, home_high) = hash_str-lt home in
    let (away_low, away_high) = hash_str-lt away in
    (
      rw teams (refl, refl, refl, refl, home_low, home_high, away_low, away_high),
      rw (same, teams) (refl, refl, refl, refl, home_low, home_high, away_low, away_high),
      rw id refl,
      rw league refl,
      rw (league, country) refl,
    )
