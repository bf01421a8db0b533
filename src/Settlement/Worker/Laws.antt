-- ===== src/Settlement/Worker/Laws.antt =====
-- What the worker promises.
use sportystake.Base.{
  ℕ, ◌≤◌, ◌<◌, ◌≡◌, refl, ◌∙◌, ◌≢◌, false, some, List, map, if◌then◌else◌, sum_by, Bool-cases, inl,
  inr, IsUnique, le→leb, lt→not-leb,
}
use sportystake.Settlement.Outcome.{key_1x2, resolve_score_based_outcome}
use sportystake.Settlement.Tables.{Bet, pending_by_market}
use sportystake.Settlement.Plan.{plan_score_based_settlement}
use sportystake.Settlement.Execute.{
  Chain, Market, Db, Executed, settled, threw, execute_market_settlement,
}
use sportystake.Settlement.Execute.Final.{bet_key}
use sportystake.Settlement.Execute.Laws.{Final, execute_market_settlement-Final}
use sportystake.Settlement.Worker.{
  high_liability_threshold, FinishedEvent, find_fixture, is_closed, closed_market, review, ran,
  settle_scored, on_finished, tables_after, record_score, flag_review, outcome_or_zero,
  assess_market_settlement_risk,
}

-- What the pending bets of a market could be paid together.
abbrev pub exposure : ℕ → List Bet → ℕ
exposure market bets = sum_by (λ b. b.potential_payout) (pending_by_market market bets)

-- The tables with the final score on the market.
abbrev pub scored : ℕ → FinishedEvent → Db → Db
scored market event db = record db {
  markets = map (record_score market event.home_score event.away_score) db.markets;
}

pub on_finished-eq :
    (chain : Chain) (event : FinishedEvent) (db : Db) (m : Market)
    → find_fixture event.fixture_id db.markets ≡ some m
    → on_finished chain event db ≡ (
        if is_closed m (pending_by_market m.id db.bets)
        then closed_market
        else settle_scored chain m.id event (scored m.id event db))
unfolding on_finished
on_finished-eq chain event db m found = rw (found, on_finished)

pub settle_scored-big :
    (chain : Chain) (market : ℕ) (event : FinishedEvent) (db : Db)
    → high_liability_threshold ≤ exposure market db.bets
    → settle_scored chain market event db
      ≡ review (record db { markets = map (flag_review market) db.markets })
unfolding settle_scored assess_market_settlement_risk
settle_scored-big chain market event db big =
    rw (le→leb high_liability_threshold (exposure market db.bets) big)

settle_scored-small :
    (chain : Chain) (market : ℕ) (event : FinishedEvent) (db : Db)
    → exposure market db.bets < high_liability_threshold
    → settle_scored chain market event db
      ≡ ran (
          execute_market_settlement chain market
            (outcome_or_zero
              (resolve_score_based_outcome key_1x2 event.home_score event.away_score))
            (plan_score_based_settlement market event.home_score event.away_score db.bets)
            db)
unfolding settle_scored assess_market_settlement_risk
settle_scored-small chain market event db small =
    rw (lt→not-leb high_liability_threshold (exposure market db.bets) small)

-- Once the pending bets of a market could be paid 10,000 USDC or more, the handler makes no call to
-- the chain and changes no bet, leg or parlay.
pub on_finished_gated :
    (chain : Chain) (event : FinishedEvent) (db : Db) (m : Market)
    → find_fixture event.fixture_id db.markets ≡ some m
    → high_liability_threshold ≤ exposure m.id db.bets
    → let db' = tables_after db (on_finished chain event db) in
      ((run : Executed) → on_finished chain event db ≢ ran run)
      × (db'.bets ≡ db.bets)
      × (db'.legs ≡ db.legs)
      × (db'.parlays ≡ db.parlays)
on_finished_gated chain event db m found big =
    elim (Bool-cases (is_closed m (pending_by_market m.id db.bets))) [
      | inl c ↦
          let e = on_finished-eq chain event db m found in
          rw (e, c) (λ run ne. cc, refl, refl, refl)
      | inr c ↦
          let e = on_finished-eq chain event db m found in
          rw (e, c, settle_scored-big chain m.id event (scored m.id event db) big)
            (λ run ne. cc, refl, refl, refl)
    ]

-- If the pending bets of a market could be paid less than 10,000 USDC together, bet ids are unique,
-- and the market is neither cancelled nor settled with no bet pending: the handler makes a settlement
-- run, and if that returns, every bet of the market that was not paid out has the status of its own
-- verdict, and every other bet is untouched.
pub on_finished_settles :
    (chain : Chain) (event : FinishedEvent) (db : Db) (m : Market)
    → (unique : IsUnique bet_key db.bets) → find_fixture event.fixture_id db.markets ≡ some m
    → is_closed m (pending_by_market m.id db.bets) ≡ false
    → exposure m.id db.bets < high_liability_threshold
    → (run : Executed) × (on_finished chain event db ≡ ran run)
      × Final m.id event.home_score event.away_score 0 db unique run
on_finished_settles chain event db m unique found live small =
    let db1 = scored m.id event db in
    let primary =
      outcome_or_zero (resolve_score_based_outcome key_1x2 event.home_score event.away_score) in
    let final =
      execute_market_settlement-Final m.id event.home_score event.away_score primary db1 unique
        chain in
    let run =
      execute_market_settlement chain m.id primary
        (plan_score_based_settlement m.id event.home_score event.away_score db.bets) db1 in
    let final_of : (run : Executed)
        → Final m.id event.home_score event.away_score primary db1 unique run
        → Final m.id event.home_score event.away_score 0 db unique run =
      λ run f. elim run [ settled _ _ _ ↦ f | threw _ ↦ f ] in
    (
      run,
      on_finished-eq chain event db m found
          ∙ rw live (settle_scored-small chain m.id event db1 small),
      final_of run final,
    )
