-- ===== src/Tracking.antt =====
-- Matches that leave the live feed: `reconcileLiveTracking`
-- (packages/oracle/src/jobs/live-tracking.ts). `Date.parse` is a parameter, with `none` where it
-- gives no number; times are milliseconds since the epoch, which began before every kick-off.
pub mod Rows
pub mod Laws
pub mod Ticks
pub mod Poller
mod Tests
use sportystake.Base.{
  ℕ, suc, ◌+◌, ◌-◌, ◌*◌, Bool, true, false, ◌&&◌, ◌||◌, Option, none, some, List, [], ◌∷◌, ◌++◌,
  foldl, ltb, leb, ◌==◌, if◌then◌else◌, Text, codes, trim_start, digits_of, value_from, includes,
  lookup, put, has, to_lower,
}

-- What `Number.parseInt` gives.
pub data FeedId : Type 0 where
  plus minus : ℕ → FeedId

unfoldable pub digits_id : (ℕ → FeedId) → List ℕ → Option FeedId
digits_id sign [] = none
digits_id sign (d ∷ ds) = some (sign (value_from 0 (d ∷ ds)))

unfoldable pub signed_id : Text → Option FeedId
unfolding digits_id
signed_id [] = none
signed_id (c ∷ cs) =
    if c == b'-'
    then digits_id minus (digits_of cs)
    else if c == b'+'
    then digits_id plus (digits_of cs)
    else digits_id plus (digits_of (c ∷ cs))

-- `Number.parseInt(s, 10)`
unfoldable pub parse_int : Text → Option FeedId
unfolding signed_id
parse_int s = signed_id (trim_start s)

-- The fields of `LiveRow` that decide.
pub record LiveRow : Type 0 where
  pub match_id : Text
  pub sport : Text
  pub match_time : Text
  pub home_score : ℕ
  pub away_score : ℕ
  pub finished : Bool

pub record TrackedMatch : Type 0 where
  pub fixture_id : FeedId
  pub sport : Option Text
  pub home_score : ℕ
  pub away_score : ℕ
  pub match_time : Text
  pub missing_ticks : ℕ
  pub confirmed_live : Bool

abbrev pub LiveTrackingState : Type 0
LiveTrackingState = List (Text × TrackedMatch)

pub record InferredFinish : Type 0 where
  pub fixture_id : FeedId
  pub home_score : ℕ
  pub away_score : ℕ

abbrev pub missing_ticks_threshold : ℕ
missing_ticks_threshold = 2

abbrev pub max_missing_ticks_before_drop : ℕ
max_missing_ticks_before_drop = 60

abbrev pub is_virtual : FeedId → Bool
is_virtual (plus n) = leb 1_000_000_000 n
is_virtual (minus n) = false

abbrev pub or_empty : Option Text → Text
or_empty none = []
or_empty (some s) = s

-- In minutes. The names hold no letter that is the small letter of one beyond ASCII.
unfoldable pub min_age_for_sport : Option Text → ℕ
min_age_for_sport sport =
    let norm = to_lower (or_empty sport) in
    if includes norm (codes "esport")
      || includes norm (codes "fifa")
      || includes norm (codes "table")
      || includes norm (codes "dart")
      || includes norm (codes "badminton")
      || includes norm (codes "cybersport")
    then 5
    else 20

-- `age === null || age >= minAge`
unfoldable pub is_old_enough : Option ℕ → ℕ → ℕ → Bool
is_old_enough none min_age now = true
is_old_enough (some kickoff) min_age now = leb (kickoff + min_age * 60_000) now

-- What the first loop leaves: the next state and the ids of this tick.
pub record Sighted : Type 0 where
  pub next_state : LiveTrackingState
  pub seen_this_tick : List Text

abbrev pub is_some {ℓ} : {A : Type ℓ} → Option A → Bool
is_some none = false
is_some (some a) = true

abbrev pub track : LiveTrackingState → FeedId → LiveRow → TrackedMatch
track previous id row = record {
  fixture_id = id;
  sport = some row.sport;
  home_score = row.home_score;
  away_score = row.away_score;
  match_time = row.match_time;
  missing_ticks = 0;
  confirmed_live = is_some (lookup row.match_id previous);
}

-- The id of a row that is tracked: a number, and not that of a virtual match.
unfoldable pub tracked_id : LiveRow → Option FeedId
tracked_id row = elim (parse_int row.match_id) [
  | none ↦ none
  | some id ↦ if is_virtual id then none else some id
]

abbrev pub sight_as : LiveTrackingState → Sighted → LiveRow → Option FeedId → Sighted
sight_as previous s row none = s
sight_as previous s row (some id) = record {
  next_state =
      if row.finished then s.next_state else put row.match_id (track previous id row) s.next_state;
  seen_this_tick = row.match_id ∷ s.seen_this_tick;
}

unfoldable pub sight_row : LiveTrackingState → Sighted → LiveRow → Sighted
sight_row previous s row = sight_as previous s row (tracked_id row)

unfoldable pub sight_rows : LiveTrackingState → List LiveRow → Sighted
sight_rows previous = foldl (sight_row previous) (record { next_state = []; seen_this_tick = [] })

pub data Fate : Type 0 where
  finishes is_dropped is_carried : Fate

-- What the absence from one more tick makes of a match.
unfoldable pub fate : (Text → Option ℕ) → ℕ → TrackedMatch → Fate
fate date_parse now t =
    let missing_ticks = suc t.missing_ticks in
    let eligible =
      t.confirmed_live && is_old_enough (date_parse t.match_time) (min_age_for_sport t.sport) now in
    if leb missing_ticks_threshold missing_ticks && eligible
    then finishes
    else if leb max_missing_ticks_before_drop missing_ticks
    then is_dropped
    else is_carried

pub record Reconciled : Type 0 where
  pub next_state : LiveTrackingState
  pub inferred_finished : List InferredFinish

abbrev pub finish_of : TrackedMatch → InferredFinish
finish_of t = record {
  fixture_id = t.fixture_id;
  home_score = t.home_score;
  away_score = t.away_score;
}

abbrev pub missed : TrackedMatch → TrackedMatch
missed t = record t { missing_ticks = suc t.missing_ticks }

abbrev pub apply_fate : Text → TrackedMatch → Fate → Reconciled → Reconciled
apply_fate match_id t finishes r = record r {
  inferred_finished = r.inferred_finished ++ finish_of t ∷ [];
}
apply_fate match_id t is_dropped r = r
apply_fate match_id t is_carried r = record r { next_state = put match_id (missed t) r.next_state }

unfoldable pub miss_match :
    (Text → Option ℕ) → ℕ → List Text → Reconciled → Text × TrackedMatch → Reconciled
miss_match date_parse now seen r (match_id, t) =
    if has match_id seen then r else apply_fate match_id t (fate date_parse now t) r

unfoldable pub reconcile_live_tracking :
    (Text → Option ℕ) → LiveTrackingState → List LiveRow → ℕ → Reconciled
reconcile_live_tracking date_parse previous rows now =
    let s = sight_rows previous rows in
    foldl (miss_match date_parse now s.seen_this_tick)
      (record { next_state = s.next_state; inferred_finished = [] }) previous
