-- ===== src/Tracking/Poller.antt =====
-- The job behind the live feed: `XbetLiveJob` (packages/oracle/src/jobs/live-poller.job.ts). What the
-- scraper gives and the time in milliseconds are arguments of a run, and what it publishes is its
-- result. An entry of the cache is gone when its time is over, and the cache
-- always answers. The health record keeps how many rows came.
pub mod Laws
pub mod Lock
use sportystake.Base.{
  ℕ, suc, ◌+◌, ◌-◌, ◌*◌, Bool, true, false, Option, none, some, List, [], ◌∷◌, ◌++◌, map, length,
  ltb, if◌then◌else◌, Text,
}
use sportystake.Tracking.{
  FeedId, parse_int, LiveRow, LiveTrackingState, InferredFinish, reconcile_live_tracking,
}

abbrev pub script_timeout_ms : ℕ
script_timeout_ms = 120_000

abbrev pub stale_lock_ms : ℕ
stale_lock_ms = script_timeout_ms * 3

pub data Event : Type 0 where
  market_live : LiveRow → Event
  match_finished : FeedId → ℕ → ℕ → Event

pub data Health : Type 0 where
  healthy : ℕ → Health
  unhealthy : Health

-- An entry of the cache with the time at which it goes.
pub record Kept (A : Type 0) : Type 0 where
  pub value : A
  pub expires_at : ℕ

-- `cache.set`, with the seconds that the entry stays
abbrev pub keep : {A : Type 0} → ℕ → A → ℕ → Kept A
keep now value ttl = record { value = value; expires_at = now + ttl * 1_000 }

-- `cache.get`
abbrev pub kept : {A : Type 0} → ℕ → Option (Kept A) → Option A
kept now none = none
kept now (some k) = if ltb now k.expires_at then some k.value else none

-- `CacheTtl`
abbrev pub live_tracking_ttl : ℕ
live_tracking_ttl = 3_600

abbrev pub live_events_ttl : ℕ
live_events_ttl = 300

abbrev pub job_health_ttl : ℕ
job_health_ttl = 86_400

-- What the job keeps in the cache.
pub record Cache : Type 0 where
  pub live_tracking : Option (Kept LiveTrackingState)
  pub live_events : Option (Kept (List LiveRow))
  pub health : Option (Kept Health)

pub record Ran : Type 0 where
  pub cache : Cache
  pub published : List Event

abbrev pub or_fresh : Option LiveTrackingState → LiveTrackingState
or_fresh none = []
or_fresh (some s) = s

abbrev pub publish_inferred : InferredFinish → Event
publish_inferred f = match_finished f.fixture_id f.home_score f.away_score

-- `runDisappearanceTracking`
unfoldable pub run_disappearance_tracking : (Text → Option ℕ) → List LiveRow → ℕ → Cache → Ran
run_disappearance_tracking date_parse rows now c =
    let r = reconcile_live_tracking date_parse (or_fresh (kept now c.live_tracking)) rows now in
    record {
      cache = record c { live_tracking = some (keep now r.next_state live_tracking_ttl) };
      published = map publish_inferred r.inferred_finished;
    }

-- What is published of one row, by the number in its id.
abbrev pub publish_as : LiveRow → Option FeedId → List Event
publish_as row none = []
publish_as row (some id) =
    if row.finished
    then market_live row ∷ match_finished id row.home_score row.away_score ∷ []
    else market_live row ∷ []

unfoldable pub publish_rows : List LiveRow → List Event
publish_rows [] = []
publish_rows (row ∷ rows) = publish_as row (parse_int row.match_id) ++ publish_rows rows

-- `_run`; the scraper gives rows, or fails.
unfoldable pub run_scraped : (Text → Option ℕ) → Option (List LiveRow) → ℕ → Cache → Ran
run_scraped date_parse none now c = record {
  cache = record c { health = some (keep now unhealthy job_health_ttl) };
  published = [];
}
run_scraped date_parse (some rows) now c =
    let tracked = run_disappearance_tracking date_parse rows now c in
    record {
      cache = record tracked.cache {
        live_events = some (keep now rows live_events_ttl);
        health = some (keep now (healthy (length rows)) job_health_ttl);
      };
      published = tracked.published ++ publish_rows rows;
    }

-- The guard of `run`: `running` and `runningSince`.
pub record Guard : Type 0 where
  pub running : Bool
  pub running_since : ℕ

-- Whether a call of `run` at a time goes on.
unfoldable pub enters : ℕ → Guard → Bool
enters now g =
    if g.running then (if ltb (now - g.running_since) stale_lock_ms then false else true) else true

abbrev pub enter : ℕ → Guard
enter now = record { running = true; running_since = now }

-- The `finally` of `run`.
abbrev pub leave : Guard → Guard
leave g = record g { running = false }
