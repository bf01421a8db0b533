-- ===== src/Tracking/Ticks.antt =====
-- The tracking over a sequence of ticks: what becomes of a match that the feed lists no more.
use mathlib.Core.List.{Mem, mem-cons_self, mem-cons_of_mem, mem-append_left, mem-append_right}
use sportystake.Base.{
  ℕ, suc, ◌+◌, ◌≤◌, ◌<◌, ◌≡◌, refl, inl, inr, ◌∙◌, ap, subst, Bool, true, false, Option, none, some,
  List, [], ◌∷◌, ◌++◌, foldl, any, select, length, All, All-append, map, arith, Text, text_eq-eq,
  text_eq, lookup, IsObject, Bool-cases,
}
use sportystake.Tracking.{
  LiveRow, TrackedMatch, LiveTrackingState, InferredFinish, finishes, is_dropped, is_carried, fate,
  finish_of, missed, min_age_for_sport, is_old_enough, reconcile_live_tracking,
}
use sportystake.Tracking.Rows.{lists}
use sportystake.Tracking.Laws.{Fate-cases, is_inferred, after_miss, reconcile_live_tracking_lem}

pub record Tick : Type 0 where
  pub rows : List LiveRow
  pub now : ℕ

selected-Mem :
    (p : Text × TrackedMatch → Bool) (k : Text) (t : TrackedMatch) (o : LiveTrackingState)
    → lookup k o ≡ some t
    → p (k, t) ≡ true
    → Mem (finish_of t) (map (λ e. finish_of e.1) (select p o))
selected-Mem p k t [] e h = cc
selected-Mem p k t ((j, a) ∷ rest) e h = elim (Bool-cases (text_eq j k)) [
  | inl q ↦
      let own : (k, t) ≡ (j, a) = ground (arith, text_eq-eq j k) in
      let chosen : p (j, a) ≡ true = subst (λ x. p x ≡ true) own h in
      let own_finish : finish_of t ≡ finish_of a = ap (λ x. finish_of x.1) own in
      rw (chosen, own_finish) mem-cons_self
  | inr q ↦
      let later = selected-Mem p k t rest (ground arith) h in
      elim (Bool-cases (p (j, a))) [
        | inl c ↦ rw c (mem-cons_of_mem (finish_of a) later)
        | inr c ↦ rw c later
      ]
]

module _ (date_parse : Text → Option ℕ) where
  abbrev step : LiveTrackingState → Tick → LiveTrackingState
  step s tick = (reconcile_live_tracking date_parse s tick.rows tick.now).next_state

  -- The state behind the ticks.
  abbrev pub after_ticks : LiveTrackingState → List Tick → LiveTrackingState
  after_ticks = foldl step

  -- All that the ticks infer, in order.
  abbrev pub inferred_over : LiveTrackingState → List Tick → List InferredFinish
  inferred_over s [] = []
  inferred_over s (tick ∷ ticks) =
      (reconcile_live_tracking date_parse s tick.rows tick.now).inferred_finished
      ++ inferred_over (step s tick) ticks

  module _ (match_id : Text) where
    abbrev pub IsUnlisted : Tick → Type 0
    IsUnlisted tick = any (lists match_id) tick.rows ≡ false

    step-lookup :
        (s : LiveTrackingState) (tick : Tick)
        → IsObject s
        → IsUnlisted tick
        → lookup match_id (step s tick) ≡ after_miss date_parse tick.now (lookup match_id s)
    step-lookup s tick o u =
        let (_, found, _) = reconcile_live_tracking_lem date_parse s tick.rows tick.now o in
        ground (arith, found match_id)

    absent-stays :
        (s : LiveTrackingState) (ticks : List Tick)
        → IsObject s
        → All IsUnlisted ticks
        → lookup match_id s ≡ none
        → lookup match_id (after_ticks s ticks) ≡ none
    absent-stays s [] o u e = e
    absent-stays s (tick ∷ ticks) o (h, u) e =
        let (next, _, _) = reconcile_live_tracking_lem date_parse s tick.rows tick.now o in
        absent-stays (step s tick) ticks next u (rw (step-lookup s tick o h, e) refl)

    not-dropped :
        (now : ℕ) (t : TrackedMatch)
        → fate date_parse now t ≡ is_dropped
        → ¬ (suc t.missing_ticks < 60)
    unfolding fate
    not-dropped now t f = λ less. ground arith

    finish-Mem :
        (s : LiveTrackingState) (tick : Tick) (t : TrackedMatch)
        → IsObject s
        → IsUnlisted tick
        → lookup match_id s ≡ some t
        → fate date_parse tick.now t ≡ finishes
        → Mem
            (finish_of t)
            (reconcile_live_tracking date_parse s tick.rows tick.now).inferred_finished
    finish-Mem s tick t o u e f =
        let (_, _, inferred) = reconcile_live_tracking_lem date_parse s tick.rows tick.now o in
        rw inferred (
          selected-Mem (is_inferred date_parse s tick.rows tick.now) match_id t s e
            (rw (u, f) refl))

    -- A match that was seen live on two ticks and that the feed lists no more is among the inferred
    -- finishes with its last score at the latest on the first tick by which its kick-off is long
    -- enough ago, if that tick is the second without it or a later one, up to the sixtieth; then it is
    -- not tracked any more.
    pub disappeared-finishes :
        (s : LiveTrackingState) (t : TrackedMatch) (before : List Tick) (last : Tick)
        → IsObject s
        → lookup match_id s ≡ some t
        → t.confirmed_live ≡ true
        → All IsUnlisted before
        → IsUnlisted last
        → 1 ≤ t.missing_ticks + length before
        → t.missing_ticks + length before < 60
        → is_old_enough (date_parse t.match_time) (min_age_for_sport t.sport) last.now ≡ true
        → Mem (finish_of t) (inferred_over s (before ++ last ∷ []))
          × (lookup match_id (after_ticks s (before ++ last ∷ [])) ≡ none)
    disappeared-finishes s t [] last o e c u ul two less old =
        let f : fate date_parse last.now t ≡ finishes = unfold fate in ground arith in
        (
          mem-append_left [] (finish-Mem s last t o ul e f),
          step-lookup s last o ul ∙ rw (e, f) refl,
        )
    disappeared-finishes s t (tick ∷ before) last o e c (h, u) ul two less old =
        let (next, _, _) = reconcile_live_tracking_lem date_parse s tick.rows tick.now o in
        let there = step-lookup s tick o h in
        elim (Fate-cases (fate date_parse tick.now t)) [
          | inl f ↦ (
            mem-append_left _ (finish-Mem s tick t o h e f),
            absent-stays (step s tick) (before ++ last ∷ []) next
                (All-append IsUnlisted before (last ∷ []) u (ul, tt)) (there ∙ rw (e, f) refl),
          )
          | inr (inl f) ↦ absurd (not-dropped tick.now t f (omega arith))
          | inr (inr f) ↦
              let (m, gone) =
                disappeared-finishes (step s tick) (missed t) before last next
                  (there ∙ rw (e, f) refl) c u ul (omega arith) (omega arith) old in
              (mem-append_right _ m, gone)
        ]

    carried-less :
        (now : ℕ) (t : TrackedMatch) → fate date_parse now t ≡ is_carried → suc t.missing_ticks < 60
    unfolding fate
    carried-less now t f = ground arith

    -- Any match that the feed lists no more is not tracked any longer once it has been missing for
    -- sixty ticks.
    pub disappeared-untracked :
        (s : LiveTrackingState) (t : TrackedMatch) (ticks : List Tick)
        → IsObject s
        → lookup match_id s ≡ some t
        → t.missing_ticks < 60
        → All IsUnlisted ticks
        → 60 ≤ t.missing_ticks + length ticks
        → lookup match_id (after_ticks s ticks) ≡ none
    disappeared-untracked s t [] o e less u h = absurd (omega arith)
    disappeared-untracked s t (tick ∷ ticks) o e less (u, us) h =
        let (next, _, _) = reconcile_live_tracking_lem date_parse s tick.rows tick.now o in
        let there = step-lookup s tick o u in
        elim (Fate-cases (fate date_parse tick.now t)) [
          | inl f ↦ absent-stays (step s tick) ticks next us (there ∙ rw (e, f) refl)
          | inr (inl f) ↦ absent-stays (step s tick) ticks next us (there ∙ rw (e, f) refl)
          | inr (inr f) ↦
              disappeared-untracked (step s tick) (missed t) ticks next (there ∙ rw (e, f) refl)
                (carried-less tick.now t f) us (omega arith)
        ]
