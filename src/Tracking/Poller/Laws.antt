-- ===== src/Tracking/Poller/Laws.antt =====
-- What a run of the job publishes and keeps.
use mathlib.Core.Logic.Or
use mathlib.Core.List.{
  Mem, Mem-prop, mem-append, mem-append_left, mem-append_right, mem-map_of_mem, not-mem-nil,
}
use sportystake.Base.{
  ℕ, ◌≡◌, refl, inl, inr, true, Option, none, some, List, [], ◌∷◌, ◌++◌, map, All, Text, ◌≤◌, ◌+◌,
  ◌<◌, lookup, IsObject, Option-cases, ap, length, ltb, ◌*◌, arith,
}
use sportystake.Tracking.{
  LiveRow, LiveTrackingState, TrackedMatch, InferredFinish, finish_of, reconcile_live_tracking,
  is_old_enough, min_age_for_sport,
}
use sportystake.Tracking.Ticks.{Tick, after_ticks, IsUnlisted, inferred_over, disappeared-finishes}
use sportystake.Tracking.Poller.{
  Kept, keep, kept, live_tracking_ttl, live_events_ttl, job_health_ttl, Event, match_finished,
  Cache, Ran, or_fresh, publish_inferred, publish_rows, run_disappearance_tracking, run_scraped,
  healthy, unhealthy,
}

pub record Scrape : Type 0 where
  pub rows : Option (List LiveRow)
  pub now : ℕ

-- The ticks of the scrapes that gave rows.
abbrev pub succeeded : List Scrape → List Tick
succeeded [] = []
succeeded (s ∷ ss) = elim s.rows [
  | none ↦ succeeded ss
  | some rows ↦ record { rows = rows; now = s.now } ∷ succeeded ss
]

module _ (date_parse : Text → Option ℕ) where
  -- Runs of the job one behind the other.
  abbrev pub run_all : Cache → List Scrape → Ran
  run_all c [] = record { cache = c; published = [] }
  run_all c (s ∷ ss) =
      let ran = run_scraped date_parse s.rows s.now c in
      let rest = run_all ran.cache ss in
      record { cache = rest.cache; published = ran.published ++ rest.published }

  -- What the ticks infer from an entry of the cache, with what each of them shows behind it.
  abbrev pub announced : Option (Kept LiveTrackingState) → List Tick → List Event
  announced entry [] = []
  announced entry (tick ∷ ticks) =
      let s = or_fresh (kept tick.now entry) in
      let r = reconcile_live_tracking date_parse s tick.rows tick.now in
      (map publish_inferred r.inferred_finished ++ publish_rows tick.rows)
      ++ announced (some (keep tick.now r.next_state live_tracking_ttl)) ticks

  -- The entry behind the ticks.
  abbrev pub entry_after :
      Option (Kept LiveTrackingState) → List Tick → Option (Kept LiveTrackingState)
  entry_after entry [] = entry
  entry_after entry (tick ∷ ticks) =
      let s = or_fresh (kept tick.now entry) in
      let r = reconcile_live_tracking date_parse s tick.rows tick.now in
      entry_after (some (keep tick.now r.next_state live_tracking_ttl)) ticks

  -- Runs of the job leave the tracking entry of the ticks whose scrape gave rows, and publish what
  -- those ticks infer and show: a scrape that fails changes nothing of it and publishes nothing. A tick
  -- that comes an hour or more behind the tick before it starts from an empty state.
  pub run_all-announced :
      (c : Cache) (scrapes : List Scrape)
      → let ran = run_all c scrapes in
        (ran.cache.live_tracking ≡ entry_after c.live_tracking (succeeded scrapes))
        × (ran.published ≡ announced c.live_tracking (succeeded scrapes))
  unfolding run_scraped run_disappearance_tracking
  run_all-announced c [] = (refl, refl)
  run_all-announced c (s ∷ ss) = elim (Option-cases s.rows) [
    | inl e ↦
        rw e
          (run_all-announced (record c { health = some (keep s.now unhealthy job_health_ttl) }) ss)
    | inr (rows, e) ↦
        let r =
          reconcile_live_tracking date_parse (or_fresh (kept s.now c.live_tracking)) rows s.now in
        let (entry, events) =
          run_all-announced
            (record c {
              live_tracking = some (keep s.now r.next_state live_tracking_ttl);
              live_events = some (keep s.now rows live_events_ttl);
              health = some (keep s.now (healthy (length rows)) job_health_ttl);
            })
            ss in
        rw e (
          entry,
          ap
              (λ (x : List Event).
                (map publish_inferred r.inferred_finished ++ publish_rows rows) ++ x)
              events,
        )
  ]

  -- Each tick comes before the entry of the tick before it is gone.
  abbrev pub IsSpaced : ℕ → List Tick → Type 0
  IsSpaced expires_at [] = Unit
  IsSpaced expires_at (tick ∷ ticks) =
      (tick.now < expires_at) × IsSpaced (tick.now + live_tracking_ttl * 1_000) ticks

  entry_after-IsSpaced :
      (k : Kept LiveTrackingState) (ticks : List Tick)
      → IsSpaced k.expires_at ticks
      → (k' : Kept LiveTrackingState) × (entry_after (some k) ticks ≡ some k')
        × (k'.value ≡ after_ticks date_parse k.value ticks)
  entry_after-IsSpaced k [] spaced = (k, refl, refl)
  entry_after-IsSpaced k (tick ∷ ticks) (soon, spaced) =
      let r = reconcile_live_tracking date_parse k.value tick.rows tick.now in
      let there : ltb tick.now k.expires_at ≡ true = ground (arith, soon) in
      rw there (entry_after-IsSpaced (keep tick.now r.next_state live_tracking_ttl) ticks spaced)

  announced-Mem :
      (f : InferredFinish) (k : Kept LiveTrackingState) (ticks : List Tick)
      → IsSpaced k.expires_at ticks
      → Mem f (inferred_over date_parse k.value ticks)
      → Mem (publish_inferred f) (announced (some k) ticks)
  announced-Mem f k [] spaced m = absurd (not-mem-nil m)
  announced-Mem f k (tick ∷ ticks) (soon, spaced) m =
      let r = reconcile_live_tracking date_parse k.value tick.rows tick.now in
      let next = keep tick.now r.next_state live_tracking_ttl in
      let there : ltb tick.now k.expires_at ≡ true = ground (arith, soon) in
      rw there (
        Or.elim Mem-prop (mem-append.0 m)
          (λ here.
            mem-append_left (announced (some next) ticks)
              (mem-append_left (publish_rows tick.rows) (mem-map_of_mem publish_inferred here)))
          (λ later.
            mem-append_right (map publish_inferred r.inferred_finished ++ publish_rows tick.rows)
              (announced-Mem f next ticks spaced later)))

  -- A match that was seen live on two ticks and that no scrape lists any more is published as
  -- finished with its last score, however many scrapes fail in between, if the tracking entry is not
  -- gone by the first scrape that gives rows, and each later one that gives rows comes less than an
  -- hour behind the one before it: at the latest with the first scrape by whose time its kick-off is
  -- long enough ago, if that is the second one without the match or a later one, up to the sixtieth.
  -- Then it is not tracked any more.
  pub disappeared-is_published :
      (c : Cache) (k : Kept LiveTrackingState) (match_id : Text) (t : TrackedMatch)
      (scrapes : List Scrape) (before : List Tick) (last : Tick)
      → c.live_tracking ≡ some k
      → IsObject k.value
      → lookup match_id k.value ≡ some t
      → t.confirmed_live ≡ true
      → succeeded scrapes ≡ before ++ last ∷ []
      → IsSpaced k.expires_at (before ++ last ∷ [])
      → All (IsUnlisted date_parse match_id) before
      → IsUnlisted date_parse match_id last
      → 1 ≤ t.missing_ticks + length before
      → t.missing_ticks + length before < 60
      → is_old_enough (date_parse t.match_time) (min_age_for_sport t.sport) last.now ≡ true
      → let ran = run_all c scrapes in
        Mem (match_finished t.fixture_id t.home_score t.away_score) ran.published
        × (k' : Kept LiveTrackingState) × (ran.cache.live_tracking ≡ some k')
        × (lookup match_id k'.value ≡ none)
  disappeared-is_published c k match_id t scrapes before last there o e live ticks spaced u ul two
        less old =
      let (entry, events) = run_all-announced c scrapes in
      let (found, gone) =
        disappeared-finishes date_parse match_id k.value t before last o e live u ul two less old in
      let (k', left, value) = entry_after-IsSpaced k (before ++ last ∷ []) spaced in
      (
        rw (events, there, ticks)
            (announced-Mem (finish_of t) k (before ++ last ∷ []) spaced found),
        k',
        rw (entry, there, ticks) left,
        rw value gone,
      )
