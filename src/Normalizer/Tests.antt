-- ===== src/Normalizer/Tests.antt =====
-- A handicap entry, a row of the feed, and the theorems on them.
use sportystake.Base.{
  ◌≡◌, refl, false, none, some, [], ◌∷◌, All, arith, Text, codes, trim, trim_start, includes,
  to_lower,
}
use sportystake.Normalizer.Odds.{
  Parsed, fraction, OddsEntry, Bookmakers, NormalizedOdds, normalize_asian_handicap, normalize_odds,
  normalize_market, normalize_markets, pick_bookmaker, find_preferred, available_by_lower,
  to_outcome,
}
use sportystake.Normalizer.Odds.Laws.{IsSound, normalize_odds-IsSound}
use sportystake.Normalizer.Scrape.{
  ScraperRow, ScraperLiveRow, hash_str, hash_step, normalise_sport, dash_spaces, derive_country,
  index_of, scraper_row_to_fixture, scraper_live_row_to_fixture,
}
use sportystake.Normalizer.Scrape.Laws.{IsNamed, scraped_fixture_lem}

-- Every text reads as 1.95.
abbrev as_195 : Text → Parsed
as_195 s = fraction 195 100

abbrev handicap : OddsEntry
handicap = record {
  home = some (codes "1.95");
  draw = none;
  away = some (codes "1.95");
  over = none;
  under = none;
  yes_odd = none;
  no_odd = none;
  hdp = some (codes "-1.5");
}

abbrev books : Bookmakers
books = (codes "Bet365", record { name = codes "Asian Handicap"; odds = handicap ∷ [] } ∷ []) ∷ []

abbrev handicap_odds : NormalizedOdds
handicap_odds = record {
  bookmaker_name = codes "Bet365";
  markets =
      record {
        market = codes "asian_handicap";
        outcomes =
            record { key = codes "home_-1.5"; label = codes "Home (-1.5)"; value_x1000 = 1_950 }
            ∷ record { key = codes "away_-1.5"; label = codes "Away (-1.5)"; value_x1000 = 1_950 }
            ∷ [];
      }
      ∷ [];
}

normalized : normalize_odds as_195 books (codes "BET365" ∷ []) ≡ some handicap_odds
unfolding normalize_odds normalize_market normalize_markets pick_bookmaker find_preferred
    available_by_lower normalize_asian_handicap to_outcome to_lower
normalized = refl

normalize_odds-IsSound_example : All IsSound handicap_odds.markets
normalize_odds-IsSound_example =
    normalize_odds-IsSound as_195 (λ s. omega arith) books (codes "BET365" ∷ []) handicap_odds
      normalized

-- The hashes are those that the source computes.
hashes : (hash_str (codes "a") ≡ 1_177_604) × (hash_str (codes "Premier League") ≡ 1941838)
unfolding hash_str hash_step
hashes = (refl, refl)

slugs : normalise_sport (codes "Table  Tennis") ≡ codes "table-tennis"
unfolding normalise_sport dash_spaces to_lower
slugs = refl

countries : derive_country [] (codes "England. Premier League") ≡ codes "England"
unfolding derive_country index_of trim trim_start
countries = refl

abbrev row : ScraperRow
row = record {
  match_id = codes "12";
  match_name = codes "Arsenal vs Chelsea";
  sport = codes "Soccer";
  league = codes "England. Premier League";
  country = [];
}

abbrev live : ScraperLiveRow
live = record { row = row; home_score = 2; away_score = 1; minute = some 70; finished = false }

scraped_fixture_lem_example :
    let before = scraper_row_to_fixture row in
    let during = scraper_live_row_to_fixture live in
    IsNamed (codes "Arsenal") (codes "Chelsea") before
    × IsNamed (codes "Arsenal") (codes "Chelsea") during
    × (during.external_id ≡ before.external_id)
    × (during.league_id ≡ before.league_id)
    × (during.country ≡ before.country)
unfolding trim trim_start includes
scraped_fixture_lem_example =
    scraped_fixture_lem row live (codes "Arsenal") (codes "Chelsea") refl refl refl refl refl refl
      refl refl
