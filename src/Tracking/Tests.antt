-- ===== src/Tracking/Tests.antt =====
-- A match that the feed shows twice and then no more, a scrape that fails, and the theorems on them.
use mathlib.Core.List.{Mem}
use sportystake.Base.{
  ℕ, ◌≤◌, ◌<◌, ◌≡◌, refl, ◌↔◌, true, false, Option, none, some, List, [], ◌∷◌, map, any, select,
  All, length, arith, if◌then◌else◌, Text, codes, lookup, IsObject, includes, to_lower, trim_start,
}
use sportystake.Tracking.{
  plus, LiveRow, TrackedMatch, LiveTrackingState, finish_of, fate, min_age_for_sport, is_old_enough,
  reconcile_live_tracking, tracked_id, parse_int, sight_rows, sight_row, miss_match,
}
use sportystake.Tracking.Rows.{lists, latest}
use sportystake.Tracking.Laws.{
  after_miss, is_inferred, reconcile_live_tracking_lem, inferred_finished_lem,
}
use sportystake.Tracking.Poller.{match_finished, Kept, keep, live_tracking_ttl, Cache, enters}
use sportystake.Tracking.Poller.Laws.{
  Scrape, succeeded, run_all, announced, entry_after, run_all-announced, disappeared-is_published,
}
use sportystake.Tracking.Poller.Lock.{Job, Reach, start, later, goes_on, is_skipped, runs_alone}

-- Every match kicked off at the epoch.
abbrev at_epoch : Text → Option ℕ
at_epoch _ = some 0

abbrev football : ℕ → ℕ → LiveRow
football home away = record {
  match_id = codes "12";
  sport = codes "Football";
  match_time = codes "1970-01-01";
  home_score = home;
  away_score = away;
  finished = false;
}

abbrev other : LiveRow
other = record (football 0 0) { match_id = codes "7"; sport = codes "eSports FIFA" }

abbrev nobody : LiveRow
nobody = record (football 0 0) { match_id = codes "x7" }

abbrev seen_once : LiveTrackingState
seen_once =
    (
      codes "12",
      record {
        fixture_id = plus 12;
        sport = some (codes "Football");
        home_score = 2;
        away_score = 1;
        match_time = codes "1970-01-01";
        missing_ticks = 0;
        confirmed_live = true;
      },
    )
    ∷ []

abbrev missed_once : LiveTrackingState
missed_once =
    (
      codes "12",
      record {
        fixture_id = plus 12;
        sport = some (codes "Football");
        home_score = 2;
        away_score = 1;
        match_time = codes "1970-01-01";
        missing_ticks = 1;
        confirmed_live = true;
      },
    )
    ∷ []

ids : (parse_int (codes " 12ab") ≡ some (plus 12)) × (parse_int (codes "x7") ≡ none)
unfolding parse_int trim_start
ids = (refl, refl)

ages : (min_age_for_sport (some (codes "eSports FIFA")) ≡ 5) × (min_age_for_sport none ≡ 20)
unfolding min_age_for_sport includes to_lower
ages = (refl, refl)

two_sightings :
    let first = reconcile_live_tracking at_epoch [] (football 1 1 ∷ nobody ∷ []) 0 in
    (reconcile_live_tracking at_epoch first.next_state (football 2 1 ∷ []) 60_000).next_state
    ≡ seen_once
unfolding reconcile_live_tracking sight_rows tracked_id parse_int miss_match sight_row trim_start
two_sightings = refl

gone_for_two_ticks :
    (reconcile_live_tracking at_epoch missed_once (other ∷ []) 1_200_000).inferred_finished
    ≡ record { fixture_id = plus 12; home_score = 2; away_score = 1 } ∷ []
unfolding reconcile_live_tracking sight_rows tracked_id parse_int miss_match fate min_age_for_sport
    is_old_enough includes to_lower sight_row trim_start
gone_for_two_ticks = refl

reconcile_live_tracking_lem_example :
    let r = reconcile_live_tracking at_epoch missed_once (other ∷ []) 1_200_000 in
    IsObject r.next_state
    × ((match_id : Text)
        → lookup match_id r.next_state ≡ (
            if any (lists match_id) (other ∷ [])
            then latest match_id missed_once none (other ∷ [])
            else after_miss at_epoch 1_200_000 (lookup match_id missed_once)))
    × (r.inferred_finished
        ≡ map
            (λ e. finish_of e.1)
            (select (is_inferred at_epoch missed_once (other ∷ []) 1_200_000) missed_once))
reconcile_live_tracking_lem_example =
    reconcile_live_tracking_lem at_epoch missed_once (other ∷ []) 1_200_000 (refl, tt)

inferred_finished_lem_example :
    let r = reconcile_live_tracking at_epoch missed_once (other ∷ []) 1_200_000 in
    All
      (λ f.
        (match_id : Text) × (t : TrackedMatch) × (lookup match_id missed_once ≡ some t)
        × (f ≡ finish_of t)
        × (any (lists match_id) (other ∷ []) ≡ false)
        × (1 ≤ t.missing_ticks)
        × (t.confirmed_live ≡ true)
        × (is_old_enough (at_epoch t.match_time) (min_age_for_sport t.sport) 1_200_000 ≡ true)
        × (lookup match_id r.next_state ≡ none))
      r.inferred_finished
inferred_finished_lem_example =
    inferred_finished_lem at_epoch missed_once (other ∷ []) 1_200_000 (refl, tt)

abbrev tracking : Cache
tracking = record {
  live_tracking = some (keep 900_000 seen_once live_tracking_ttl);
  live_events = none;
  health = none;
}

abbrev gap : List Scrape
gap =
    record { rows = some (other ∷ []); now = 1_080_000 }
    ∷ record { rows = none; now = 1_200_000 }
    ∷ record { rows = some []; now = 1_320_000 }
    ∷ []

run_all-announced_example :
    let ran = run_all at_epoch tracking gap in
    (ran.cache.live_tracking ≡ entry_after at_epoch tracking.live_tracking (succeeded gap))
    × (ran.published ≡ announced at_epoch tracking.live_tracking (succeeded gap))
run_all-announced_example = run_all-announced at_epoch tracking gap

disappeared-is_published_example :
    let ran = run_all at_epoch tracking gap in
    Mem (match_finished (plus 12) 2 1) ran.published
    × (k' : Kept LiveTrackingState) × (ran.cache.live_tracking ≡ some k')
    × (lookup (codes "12") k'.value ≡ none)
unfolding tracked_id parse_int is_old_enough min_age_for_sport includes to_lower trim_start
disappeared-is_published_example =
    disappeared-is_published at_epoch tracking (keep 900_000 seen_once live_tracking_ttl)
      (codes "12")
      (record {
        fixture_id = plus 12;
        sport = some (codes "Football");
        home_score = 2;
        away_score = 1;
        match_time = codes "1970-01-01";
        missing_ticks = 0;
        confirmed_live = true;
      })
      gap (record { rows = other ∷ []; now = 1_080_000 } ∷ [])
      (record { rows = []; now = 1_320_000 }) refl (refl, tt) refl refl refl
      (omega arith, (omega arith, tt)) (refl, tt) refl (omega arith) (omega arith) refl

-- The second call finds the first run under way.
abbrev busy : Job
busy = record { guard = record { running = true; running_since = 5 }; active = 5 ∷ [] }

busy-Reach : Reach busy
unfolding enters
busy-Reach = later (later start (goes_on 5 tt refl)) (is_skipped 90_000 refl)

runs_alone_example :
    (length busy.active ≤ 1) × ((busy.guard.running ≡ true) ↔ (0 < length busy.active))
runs_alone_example = runs_alone busy-Reach
