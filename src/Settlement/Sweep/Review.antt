-- ===== src/Settlement/Sweep/Review.antt =====
-- A market that is held back for a review, and the sweep.
use sportystake.Base.{
  sym, subst, ℕ, ◌≡◌, ◌<◌, ◌≤◌, refl, ap, ◌∙◌, true, false, ◌&&◌, Option, none, some, List, [], ◌∷◌,
  map, arith, ◌==◌, ltb, any, Bool-cases, inl, inr,
}
use sportystake.Settlement.Tables.{Bet, is_pending, pending_by_market}
use sportystake.Settlement.Execute.{Chain, Market, market_open, Db}
use sportystake.Settlement.Worker.{
  high_liability_threshold, FinishedEvent, find_fixture, is_fixture, on_finished, tables_after,
  record_score, flag_review, is_closed,
}
use sportystake.Settlement.Worker.Laws.{exposure, scored, on_finished-eq, settle_scored-big}
use sportystake.Settlement.Sweep.{is_swept}

exposure-any :
    (market : ℕ) (bets : List Bet)
    → 0 < exposure market bets
    → any (λ b. b.market_id == market && is_pending b.status) bets ≡ true
unfolding pending_by_market
exposure-any market [] h = ground arith
exposure-any market (b ∷ bs) h = elim (Bool-cases (b.market_id == market && is_pending b.status)) [
  | inl e ↦ rw e refl
  | inr e ↦ let rest = exposure-any market bs in ground (arith, e, rest)
]

abbrev on_row : (Market → Market) → Option Market → Option Market
on_row g none = none
on_row g (some m) = some (g m)

find_fixture-map :
    (g : Market → Market)
    → ((m : Market) → (g m).fixture_id ≡ m.fixture_id)
    → (f : ℕ) (ms : List Market) → find_fixture f (map g ms) ≡ on_row g (find_fixture f ms)
find_fixture-map g same f [] = refl
find_fixture-map g same f (m ∷ ms) =
    let rest = find_fixture-map g same f ms in
    elim (Bool-cases (is_fixture f m.fixture_id)) [
      | inl b ↦
          let b' : is_fixture f (g m).fixture_id ≡ true = ap (is_fixture f) (same m) ∙ b in
          rw (b', b) refl
      | inr b ↦
          let b' : is_fixture f (g m).fixture_id ≡ false = ap (is_fixture f) (same m) ∙ b in
          rw (b', b) rest
    ]

record_score-fixture_id :
    (i home away : ℕ) (m : Market) → (record_score i home away m).fixture_id ≡ m.fixture_id
record_score-fixture_id i home away m = elim (Bool-cases (m.id == i)) [
  | inl a ↦ rw a refl
  | inr a ↦ rw a refl
]

flag_review-fixture_id : (i : ℕ) (m : Market) → (flag_review i m).fixture_id ≡ m.fixture_id
flag_review-fixture_id i m = elim (Bool-cases (m.id == i)) [ inl a ↦ rw a refl | inr a ↦ rw a refl ]

-- A market that is open and no prediction, and that the handler of a final score holds back for a
-- review, is a market that a sweep selects to settle once its start is before the cutoff.
pub held_back-is_swept :
    (chain : Chain) (event : FinishedEvent) (db : Db) (m : Market) (cutoff : ℕ)
    → find_fixture event.fixture_id db.markets ≡ some m
    → high_liability_threshold ≤ exposure m.id db.bets
    → m.status ≡ market_open
    → m.is_prediction ≡ false
    → m.start_time < cutoff
    → let db' = tables_after db (on_finished chain event db) in
      let m' = flag_review m.id (record_score m.id event.home_score event.away_score m) in
      (find_fixture event.fixture_id db'.markets ≡ some m') × (is_swept cutoff db' m' ≡ true)
unfolding is_swept
held_back-is_swept chain event db m cutoff found big open_now sport begun =
    let e = on_finished-eq chain event db m found in
    let closed : is_closed m (pending_by_market m.id db.bets) ≡ false = rw open_now refl in
    let held = settle_scored-big chain m.id event (scored m.id event db) big in
    let self : (m.id == m.id) ≡ true = ground arith in
    let early : ltb m.start_time cutoff ≡ true = ground arith in
    let m1 : Market = record m {
      home_score = some event.home_score;
      away_score = some event.away_score;
      needs_manual_review = true;
    } in
    let marked : flag_review m.id (record_score m.id event.home_score event.away_score m) ≡ m1 =
      rw (self, self) refl in
    let kept_db : Db = record (scored m.id event db) {
      markets = map (flag_review m.id) (scored m.id event db).markets;
    } in
    let pending = exposure-any m.id db.bets (omega (arith, big)) in
    rw (e, closed, held)
      (
        find_fixture-map (flag_review m.id) (flag_review-fixture_id m.id) event.fixture_id _
            ∙ ap (on_row (flag_review m.id)) (
                find_fixture-map (record_score m.id event.home_score event.away_score)
                  (record_score-fixture_id m.id event.home_score event.away_score) event.fixture_id
                  db.markets
                ∙ ap (on_row (record_score m.id event.home_score event.away_score)) found),
        subst (λ x. is_swept cutoff kept_db x ≡ true) (sym marked)
            (rw (sport, open_now, early, pending) refl),
      )
