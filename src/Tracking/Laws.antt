-- ===== src/Tracking/Laws.antt =====
-- One tick of the tracking against a description without loops.
use mathlib.Core.List.{append-nil, append_assoc}
use sportystake.Base.{
  ℕ, ◌≤◌, ◌≡◌, refl, sym, ◌⊎◌, inl, inr, Bool, true, false, not, ◌&&◌, Option, none, some, List, [],
  ◌∷◌, ◌++◌, foldl, map, any, select, All, All-imp, All-select, All-map, lookup-entries, arith,
  if◌then◌else◌, Text, text_eq, text_eq-eq, text_eq_refl, lookup, has, lookup-put, IsObject,
  put-IsObject, Bool-cases, subst, ◌∙◌,
}
use sportystake.Tracking.{
  LiveRow, TrackedMatch, LiveTrackingState, Fate, finishes, is_dropped, is_carried, fate,
  Reconciled, finish_of, missed, miss_match, min_age_for_sport, is_old_enough, sight_rows,
  reconcile_live_tracking,
}
use sportystake.Tracking.Rows.{
  lists, latest, sight_rows-lookup, sight_rows-has, sight_rows-IsObject, latest-unlisted,
}

abbrev pub kept_by : TrackedMatch → Fate → Option TrackedMatch
kept_by t finishes = none
kept_by t is_dropped = none
kept_by t is_carried = some (missed t)

abbrev pub is_finish : Fate → Bool
is_finish finishes = true
is_finish _ = false

pub Fate-cases : (f : Fate) → (f ≡ finishes) ⊎ (f ≡ is_dropped) ⊎ (f ≡ is_carried)
Fate-cases finishes = inl refl
Fate-cases is_dropped = inr (inl refl)
Fate-cases is_carried = inr (inr refl)

module _ (date_parse : Text → Option ℕ) (now : ℕ) where
  -- What is left of a match that no row lists.
  abbrev pub after_miss : Option TrackedMatch → Option TrackedMatch
  after_miss none = none
  after_miss (some t) = kept_by t (fate date_parse now t)

  module _ (seen : List Text) where
    abbrev over : Reconciled → LiveTrackingState → Reconciled
    over = foldl (miss_match date_parse now seen)

    abbrev finishes_now : Text × TrackedMatch → Bool
    finishes_now (match_id, t) = not (has match_id seen) && is_finish (fate date_parse now t)

    -- A step leaves the entries under other keys alone.
    miss_match-other :
        (k : Text) (r : Reconciled) (m : Text) (t : TrackedMatch)
        → (has k seen ≡ true) ⊎ (text_eq m k ≡ false)
        → lookup k (miss_match date_parse now seen r (m, t)).next_state ≡ lookup k r.next_state
    unfolding miss_match
    miss_match-other k r m t h = ground (
      arith,
      lookup-put k m (missed t) r.next_state,
      text_eq-eq m k,
      Fate-cases (fate date_parse now t),
    )

    miss_match-own :
        (k : Text) (r : Reconciled) (t : TrackedMatch)
        → has k seen ≡ false
        → lookup k r.next_state ≡ none
        → lookup k (miss_match date_parse now seen r (k, t)).next_state ≡ after_miss (some t)
    unfolding miss_match
    miss_match-own k r t h e = ground (
      arith,
      lookup-put k k (missed t) r.next_state,
      text_eq_refl k,
      Fate-cases (fate date_parse now t),
    )

    over-other :
        (k : Text) (r : Reconciled) (previous : LiveTrackingState)
        → (has k seen ≡ true) ⊎ (lookup k previous ≡ none)
        → lookup k (over r previous).next_state ≡ lookup k r.next_state
    over-other k r [] h = refl
    over-other k r ((m, t) ∷ rest) h =
        let step = miss_match-other k r m t in
        let next = over-other k (miss_match date_parse now seen r (m, t)) rest in
        ground (arith, step, next)

    over-own :
        (k : Text) (r : Reconciled) (previous : LiveTrackingState)
        → IsObject previous
        → has k seen ≡ false
        → lookup k r.next_state ≡ none
        → lookup k (over r previous).next_state ≡ after_miss (lookup k previous)
    over-own k r [] o h e = e
    over-own k r ((m, t) ∷ rest) (new, o) h e =
        let r' = miss_match date_parse now seen r (m, t) in
        elim (Bool-cases (text_eq m k)) [
          | inl q ↦
              let same : m ≡ k = text_eq-eq m k q in
              let absent : lookup k rest ≡ none = subst (λ x. lookup x rest ≡ none) same new in
              let own : lookup k r'.next_state ≡ after_miss (some t) =
                subst
                  (λ x.
                    lookup k (miss_match date_parse now seen r (x, t)).next_state
                    ≡ after_miss (some t))
                  (sym same) (miss_match-own k r t h e) in
              rw q (over-other k r' rest (inr absent) ∙ own)
          | inr q ↦
              let step = miss_match-other k r m t (inr q) in
              rw q (over-own k r' rest o h (step ∙ e))
        ]

    miss_match-IsObject :
        (r : Reconciled) (e : Text × TrackedMatch)
        → IsObject r.next_state
        → IsObject (miss_match date_parse now seen r e).next_state
    unfolding miss_match
    miss_match-IsObject r (m, t) o = elim (Bool-cases (has m seen)) [
      | inl h ↦ rw h o
      | inr h ↦ rw h (elim (Fate-cases (fate date_parse now t)) [
        | inl f ↦ rw f o
        | inr (inl f) ↦ rw f o
        | inr (inr f) ↦ rw f (put-IsObject m (missed t) r.next_state o)
      ])
    ]

    over-IsObject :
        (r : Reconciled) (previous : LiveTrackingState)
        → IsObject r.next_state
        → IsObject (over r previous).next_state
    over-IsObject r [] o = o
    over-IsObject r (e ∷ rest) o =
        over-IsObject (miss_match date_parse now seen r e) rest (miss_match-IsObject r e o)

    miss_match-inferred :
        (r : Reconciled) (m : Text) (t : TrackedMatch)
        → (miss_match date_parse now seen r (m, t)).inferred_finished
          ≡ r.inferred_finished ++ (if finishes_now (m, t) then finish_of t ∷ [] else [])
    unfolding miss_match
    miss_match-inferred r m t =
        ground (arith, append-nil r.inferred_finished, Fate-cases (fate date_parse now t))

    over-inferred :
        (r : Reconciled) (previous : LiveTrackingState)
        → (over r previous).inferred_finished
          ≡ r.inferred_finished ++ map (λ e. finish_of e.1) (select finishes_now previous)
    over-inferred r [] = sym (append-nil r.inferred_finished)
    over-inferred r ((m, t) ∷ rest) =
        let step = miss_match-inferred r m t in
        let next = over-inferred (miss_match date_parse now seen r (m, t)) rest in
        let found = map (λ (e : Text × TrackedMatch). finish_of e.1) (select finishes_now rest) in
        elim (Bool-cases (finishes_now (m, t))) [
          | inl e ↦
              rw e (next ∙ rw (step, e) (append_assoc r.inferred_finished (finish_of t ∷ []) found))
          | inr e ↦ rw e (next ∙ rw (step, e, append-nil r.inferred_finished) refl)
        ]

module _ (date_parse : Text → Option ℕ) (previous : LiveTrackingState) (rows : List LiveRow)
    (now : ℕ) where
  -- A tracked match that no row lists and whose absence finishes it.
  abbrev pub is_inferred : Text × TrackedMatch → Bool
  is_inferred (match_id, t) = not (any (lists match_id) rows) && is_finish (fate date_parse now t)

  -- From a state without a key twice, a tick leaves such a state. A match that a row lists is in it
  -- as its last running row shows it, and not at all where every row of it is finished; any other
  -- match is there exactly when the previous state has it and its absence carries it on. The
  -- inferred finishes are, in order and once each, those of the tracked matches that no row lists
  -- and whose absence finishes them.
  pub reconcile_live_tracking_lem :
      IsObject previous
      → let r = reconcile_live_tracking date_parse previous rows now in
        IsObject r.next_state
        × ((match_id : Text)
            → lookup match_id r.next_state ≡ (
                if any (lists match_id) rows
                then latest match_id previous none rows
                else after_miss date_parse now (lookup match_id previous)))
        × (r.inferred_finished ≡ map (λ e. finish_of e.1) (select is_inferred previous))
  unfolding reconcile_live_tracking
  reconcile_live_tracking_lem o =
      let s = sight_rows previous rows in
      let start : Reconciled = record { next_state = s.next_state; inferred_finished = [] } in
      let seen = s.seen_this_tick in
      (
        over-IsObject date_parse now seen start previous (sight_rows-IsObject previous rows),
        λ k.
            let e = sight_rows-has k previous rows in
            let found = sight_rows-lookup k previous rows in
            elim (Bool-cases (any (lists k) rows)) [
              | inl h ↦ rw h (over-other date_parse now seen k start previous (inl (e ∙ h)) ∙ found)
              | inr h ↦ rw h (
                  over-own date_parse now seen k start previous o (e ∙ h)
                    (found ∙ latest-unlisted k previous none rows h))
            ],
        over-inferred date_parse now seen start previous ∙ (λ i.
            map (λ (e : Text × TrackedMatch). finish_of e.1)
              (select
                (λ (e : Text × TrackedMatch).
                  not (sight_rows-has e.0 previous rows i) && is_finish (fate date_parse now e.1))
                previous)),
      )

  fate-finishes :
      (t : TrackedMatch)
      → is_finish (fate date_parse now t) ≡ true
      → (1 ≤ t.missing_ticks)
        × (t.confirmed_live ≡ true)
        × (is_old_enough (date_parse t.match_time) (min_age_for_sport t.sport) now ≡ true)
  unfolding fate
  fate-finishes t h = ground arith

  -- Every inferred finish is that of a tracked match, with the last score seen, which no row lists,
  -- which was missing before, was seen live on two ticks, whose kick-off is unknown or as long ago as
  -- its sport asks, and which is not tracked any more.
  pub inferred_finished_lem :
      IsObject previous
      → let r = reconcile_live_tracking date_parse previous rows now in
        All
          (λ f.
            (match_id : Text) × (t : TrackedMatch) × (lookup match_id previous ≡ some t)
            × (f ≡ finish_of t)
            × (any (lists match_id) rows ≡ false)
            × (1 ≤ t.missing_ticks)
            × (t.confirmed_live ≡ true)
            × (is_old_enough (date_parse t.match_time) (min_age_for_sport t.sport) now ≡ true)
            × (lookup match_id r.next_state ≡ none))
          r.inferred_finished
  inferred_finished_lem o =
      let (_, found, inferred) = reconcile_live_tracking_lem o in
      rw inferred (
        All-map _ _ _ (
          All-imp
            (λ (e : Text × TrackedMatch)
                (h : (lookup e.0 previous ≡ some e.1) × (is_inferred e ≡ true)).
              let unlisted : any (lists e.0) rows ≡ false = ground (arith, h.1) in
              let end : is_finish (fate date_parse now e.1) ≡ true = ground (arith, h.1) in
              let (missing, confirmed, old) = fate-finishes e.1 end in
              (
                e.0,
                e.1,
                h.0,
                refl,
                unlisted,
                missing,
                confirmed,
                old,
                ground (arith, found e.0, unlisted, h.0, end),
              ))
            _ (All-select _ is_inferred previous (lookup-entries previous o))))
