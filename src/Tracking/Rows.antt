-- ===== src/Tracking/Rows.antt =====
-- What the rows of one tick make of the tracking state.
use sportystake.Base.{
  ◌≡◌, refl, sym, inl, inr, Bool, false, ◌&&◌, ◌||◌, Option, none, some, List, [], ◌∷◌, foldl, any,
  arith, if◌then◌else◌, Text, text_eq, lookup, has, lookup-put, IsObject, put-IsObject, Bool-cases,
  Option-cases,
}
use sportystake.Tracking.{
  LiveRow, TrackedMatch, LiveTrackingState, Sighted, FeedId, is_some, track, tracked_id, sight_row,
  sight_rows,
}

-- The row lists the match, finished or not.
abbrev pub lists : Text → LiveRow → Bool
lists match_id row = is_some (tracked_id row) && text_eq row.match_id match_id

abbrev pub sighting_as : LiveTrackingState → LiveRow → Option FeedId → Option TrackedMatch
sighting_as previous row none = none
sighting_as previous row (some id) = if row.finished then none else some (track previous id row)

abbrev pub sighting : LiveTrackingState → LiveRow → Option TrackedMatch
sighting previous row = sighting_as previous row (tracked_id row)

abbrev pub or_else {ℓ} : {A : Type ℓ} → Option A → Option A → Option A
or_else none b = b
or_else (some a) b = some a

-- The match as the last row shows it that lists it as running.
abbrev pub latest :
    Text → LiveTrackingState → Option TrackedMatch → List LiveRow → Option TrackedMatch
latest match_id previous found [] = found
latest match_id previous found (row ∷ rows) =
    latest match_id previous
      (if text_eq row.match_id match_id then or_else (sighting previous row) found else found) rows

module _ (match_id : Text) (previous : LiveTrackingState) where
  sight_row-lookup :
      (s : Sighted) (row : LiveRow)
      → lookup match_id (sight_row previous s row).next_state ≡ (
          if text_eq row.match_id match_id
          then or_else (sighting previous row) (lookup match_id s.next_state)
          else lookup match_id s.next_state)
  unfolding sight_row
  sight_row-lookup s row = elim (Option-cases (tracked_id row)) [
    | inl e ↦ rw e (ground arith)
    | inr (id, e) ↦
        rw e (ground (arith, lookup-put match_id row.match_id (track previous id row) s.next_state))
  ]

  latest-lookup :
      (s : Sighted) (rows : List LiveRow)
      → lookup match_id (foldl (sight_row previous) s rows).next_state
        ≡ latest match_id previous (lookup match_id s.next_state) rows
  latest-lookup s [] = refl
  latest-lookup s (row ∷ rows) =
      rw (sym (sight_row-lookup s row)) (latest-lookup (sight_row previous s row) rows)

  sight_row-has :
      (s : Sighted) (row : LiveRow)
      → has match_id (sight_row previous s row).seen_this_tick
        ≡ (lists match_id row || has match_id s.seen_this_tick)
  unfolding sight_row
  sight_row-has s row = ground arith

  seen-lists :
      (s : Sighted) (rows : List LiveRow)
      → has match_id (foldl (sight_row previous) s rows).seen_this_tick
        ≡ (any (lists match_id) rows || has match_id s.seen_this_tick)
  seen-lists s [] = refl
  seen-lists s (row ∷ rows) =
      ground (arith, sight_row-has s row, seen-lists (sight_row previous s row) rows)

  pub sight_rows-lookup :
      (rows : List LiveRow)
      → lookup match_id (sight_rows previous rows).next_state ≡ latest match_id previous none rows
  unfolding sight_rows
  sight_rows-lookup rows = latest-lookup _ rows

  pub sight_rows-has :
      (rows : List LiveRow)
      → has match_id (sight_rows previous rows).seen_this_tick ≡ any (lists match_id) rows
  unfolding sight_rows
  sight_rows-has rows =
      ground (arith, seen-lists (record { next_state = []; seen_this_tick = [] }) rows)

  -- A match that no row lists is not in the state that the rows leave.
  pub latest-unlisted :
      (found : Option TrackedMatch) (rows : List LiveRow)
      → any (lists match_id) rows ≡ false
      → latest match_id previous found rows ≡ found
  latest-unlisted found [] h = refl
  latest-unlisted found (row ∷ rows) h = elim (Option-cases (tracked_id row)) [
    | inl e ↦ rw e (ground (arith, latest-unlisted found rows, e))
    | inr (id, e) ↦ rw e (ground (arith, latest-unlisted found rows, e))
  ]

sight_row-IsObject :
    (previous : LiveTrackingState) (s : Sighted) (row : LiveRow)
    → IsObject s.next_state
    → IsObject (sight_row previous s row).next_state
unfolding sight_row
sight_row-IsObject previous s row h = elim (Option-cases (tracked_id row)) [
  | inl e ↦ rw e h
  | inr (id, e) ↦ rw e (elim (Bool-cases row.finished) [
    | inl f ↦ rw f h
    | inr f ↦ rw f (put-IsObject row.match_id (track previous id row) s.next_state h)
  ])
]

sighted-IsObject :
    (previous : LiveTrackingState) (s : Sighted) (rows : List LiveRow)
    → IsObject s.next_state
    → IsObject (foldl (sight_row previous) s rows).next_state
sighted-IsObject previous s [] h = h
sighted-IsObject previous s (row ∷ rows) h =
    sighted-IsObject previous (sight_row previous s row) rows (sight_row-IsObject previous s row h)

pub sight_rows-IsObject :
    (previous : LiveTrackingState) (rows : List LiveRow)
    → IsObject (sight_rows previous rows).next_state
unfolding sight_rows
sight_rows-IsObject previous rows = sighted-IsObject previous _ rows tt
