-- ===== src/Normalizer/Scrape.antt =====
-- packages/oracle/src/normalizers/scrape.normalizer.ts. Times and seasons, which come from the clock
-- and from `Date`, and the fields that are always the same are left out. `Math.round` of odds is on
-- fractions.
pub mod Laws
use Prim.Native.Nat.{bit_xor}
use sportystake.Base.{
  ℕ, zero, suc, ◌+◌, ◌*◌, ◌%◌, ◌^◌, Bool, true, false, Option, none, some, List, [], ◌∷◌, ◌++◌,
  foldl, map, if◌then◌else◌, Text, codes, text_eq, starts, drop, take, trim, to_lower, is_space,
  ◌==◌,
}
use sportystake.Tracking.{FeedId, parse_int}

-- One round of the hash. The integer of 32 bits that `h << 5` and `^` give is kept without its sign:
-- it counts modulo 2 ^ 32 only, and `>>> 0` takes the sign away at the end.
unfoldable pub hash_step : ℕ → ℕ → ℕ
hash_step h c = bit_xor ((h * 32 + h) % 2 ^ 32) c

unfoldable pub hash_str : Text → ℕ
hash_str s = foldl hash_step 5_381 s % 2 ^ 32 % 1_000_000 + 1_000_000

-- The place where a text starts with the part, or one more than the place behind its first unit.
abbrev pub index_or : Bool → Option ℕ → Option ℕ
index_or true rest = some 0
index_or false none = none
index_or false (some i) = some (suc i)

-- `match.indexOf(part)`; `none` is -1.
unfoldable pub index_of : Text → Text → Option ℕ
index_of [] part = if starts part [] then some 0 else none
index_of (c ∷ cs) part = index_or (starts part (c ∷ cs)) (index_of cs part)

pub record Teams : Type 0 where
  pub home : Text
  pub away : Text

abbrev pub split_at : Text → Option ℕ → Teams
split_at s none = record { home = trim s; away = [] }
split_at s (some i) = record { home = trim (take i s); away = trim (drop (i + 4) s) }

unfoldable pub split_match : Text → Teams
split_match s = split_at s (index_of s (codes " vs "))

abbrev pub external_id_for : Text → Text
external_id_for match_id = codes "1xbet:" ++ match_id

-- `replace(/\s+/g, "-")`; `inside` says that the last code unit was white space.
unfoldable pub dash_spaces : Bool → Text → Text
dash_spaces inside [] = []
dash_spaces inside (c ∷ cs) =
    let rest = dash_spaces (is_space c) cs in
    if is_space c then (if inside then rest else b'-' ∷ rest) else c ∷ rest

abbrev pub or_alias : Text → Text
or_alias slug = if text_eq slug (codes "soccer") then codes "football" else slug

-- What is missing or empty is football.
unfoldable pub normalise_sport : Text → Text
normalise_sport [] = codes "football"
normalise_sport (c ∷ cs) = or_alias (dash_spaces false (to_lower (c ∷ cs)))

abbrev pub prefix_or : Text → Option ℕ → Text
prefix_or league none = codes "International"
prefix_or league (some i) = trim (take i league)

abbrev pub country_or : Text → Text → Text
country_or [] league = prefix_or league (index_of league (codes "."))
country_or (c ∷ cs) league = c ∷ cs

unfoldable pub derive_country : Text → Text → Text
derive_country country league = country_or (trim country) league

pub record ScraperRow : Type 0 where
  pub match_id : Text
  pub match_name : Text
  pub sport : Text
  pub league : Text
  pub country : Text

pub data FixtureStatus : Type 0 where
  open_status live_status finished_status : FixtureStatus

pub record NormalizedFixture : Type 0 where
  pub fixture_id : Option FeedId
  pub external_id : Text
  pub sport : Text
  pub league_id : ℕ
  pub league_name : Text
  pub country : Text
  pub home_team : Text
  pub home_team_id : ℕ
  pub away_team : Text
  pub away_team_id : ℕ
  pub status : FixtureStatus
  pub home_score : ℕ
  pub away_score : ℕ
  pub minute : Option ℕ

abbrev pub or_unknown : Text → Text
or_unknown [] = codes "Unknown"
or_unknown (c ∷ cs) = c ∷ cs

unfoldable pub scraper_row_to_fixture : ScraperRow → NormalizedFixture
scraper_row_to_fixture row =
    let teams = split_match row.match_name in
    let league_name = or_unknown row.league in
    record {
      fixture_id = parse_int row.match_id;
      external_id = external_id_for row.match_id;
      sport = normalise_sport row.sport;
      league_id = hash_str league_name;
      league_name = league_name;
      country = derive_country row.country league_name;
      home_team = teams.home;
      home_team_id = hash_str teams.home;
      away_team = teams.away;
      away_team_id = hash_str teams.away;
      status = open_status;
      home_score = 0;
      away_score = 0;
      minute = none;
    }

pub record ScraperLiveRow : Type 0 where
  pub row : ScraperRow
  pub home_score : ℕ
  pub away_score : ℕ
  pub minute : Option ℕ
  pub finished : Bool

unfoldable pub scraper_live_row_to_fixture : ScraperLiveRow → NormalizedFixture
scraper_live_row_to_fixture live =
    let row = live.row in
    let teams = split_match row.match_name in
    let league_name = or_unknown row.league in
    record {
      fixture_id = parse_int row.match_id;
      external_id = external_id_for row.match_id;
      sport = normalise_sport row.sport;
      league_id = hash_str league_name;
      league_name = league_name;
      country = derive_country row.country league_name;
      home_team = teams.home;
      home_team_id = hash_str teams.home;
      away_team = teams.away;
      away_team_id = hash_str teams.away;
      status = if live.finished then finished_status else live_status;
      home_score = live.home_score;
      away_score = live.away_score;
      minute = live.minute;
    }
