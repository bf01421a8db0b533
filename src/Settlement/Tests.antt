-- ===== src/Settlement/Tests.antt =====
-- A market with bets of several types, and the theorems on settlement at it.
use Prim.Native.String.{String}
use sportystake.Base.{
  trim, ℕ, ◌≡◌, refl, ◌≢◌, true, false, none, some, List, [], ◌∷◌, map, arith, codes, IsUnique,
  select,
}
use sportystake.Settlement.Outcome.{
  win, lose, push, resolve_score_based_outcome, resolve_double_chance_bet, unsupported,
}
use sportystake.Settlement.Outcome.Handicap.{parse_label, judge, resolve_asian_handicap_bet, Line}
use sportystake.Settlement.Sweep.{settle_finished_markets}
use sportystake.Settlement.Sweep.Laws.{on, settle_finished_markets-spares}
use sportystake.Settlement.Worker.{tables_of}
use sportystake.Settlement.Execute.{market_settled}
use sportystake.Base.{inl, inr}
use sportystake.Settlement.Sweep.{is_swept}
use sportystake.Settlement.Sweep.Review.{held_back-is_swept}
use sportystake.Settlement.Worker.{flag_review, record_score, find_fixture}
use sportystake.Settlement.Tables.{
  pending_by_market, Bet, BetStatus, pending, won, lost, cancelled, claimed,
}
use sportystake.Settlement.Plan.{no_plan, is_planned, plan_score_based_settlement, verdict}
use sportystake.Settlement.Plan.Content.{Settles}
use sportystake.Settlement.Plan.Groups.{plan_score_based_settlement-Settles}
use sportystake.Settlement.Plan.Reports.{is_reported, plan_score_based_settlement-Reports}
use sportystake.Settlement.Parlay.{ParlayLeg, Parlay, leg_pending, reconcile_parlay_legs_for_market}
use sportystake.Settlement.Parlay.Laws.{
  leg_key, resolved, on_market, settled_parlay, reconcile_parlay_legs_lem,
}
use sportystake.Settlement.Execute.{
  Chain, mined, failed, Market, market_open, Db, Executed, execute_market_settlement,
}
use sportystake.Settlement.Execute.Final.{bet_key, settle_bet}
use sportystake.Settlement.Execute.Laws.{Final, execute_market_settlement-Final}
use sportystake.Settlement.Worker.{FinishedEvent, on_finished, tables_after, ran}
use sportystake.Settlement.Worker.Laws.{on_finished_gated, on_finished_settles}

space_is_trimmed : resolve_asian_handicap_bet (codes " Home (-1.5) ") 2 0 ≡ win
unfolding resolve_asian_handicap_bet trim parse_label judge
space_is_trimmed = refl

quarter_line : resolve_asian_handicap_bet (codes "Away (-1.25)") 2 0 ≡ unsupported
unfolding resolve_asian_handicap_bet trim parse_label judge
quarter_line = refl

whole_line : resolve_asian_handicap_bet (codes "Away (+1)") 1 2 ≡ push
unfolding resolve_asian_handicap_bet trim parse_label judge
whole_line = refl

lower_case_label : resolve_double_chance_bet (codes "1x ") 1 2 ≡ lose
unfolding resolve_double_chance_bet
lower_case_label = refl

abbrev bet : ℕ → String → ℕ → String → ℕ → BetStatus → Bet
bet i key outcome label payout status = record {
  id = i;
  market_id = 7;
  market_type = codes key;
  outcome = outcome;
  selection_label = codes label;
  potential_payout = payout;
  status = status;
}

abbrev bets : List Bet
bets =
    bet 1 "1X2" 0 "Home" 200 pending
    ∷ bet 2 "asian_handicap" 0 "Home (-1)" 190 pending
    ∷ bet 3 "1X2" 1 "Draw" 300 pending
    ∷ bet 4 "over_under_25" 0 "Over 2.5" 180 pending
    ∷ bet 5 "asian_handicap" 1 "Away (-0.25)" 195 pending
    ∷ bet 6 "1X2" 0 "Home" 210 claimed
    ∷ record (bet 8 "1X2" 0 "Home" 220 pending) { market_id = 9 }
    ∷ []

bets-IsUnique : IsUnique bet_key bets
bets-IsUnique = omega arith

settled_statuses :
    map (λ b. b.status) (map (settle_bet 7 2 1) bets)
    ≡ won ∷ cancelled ∷ lost ∷ won ∷ lost ∷ claimed ∷ pending ∷ []
unfolding verdict resolve_asian_handicap_bet trim parse_label judge resolve_score_based_outcome
settled_statuses = refl

abbrev leg : ℕ → ℕ → ℕ → ℕ → ParlayLeg
leg i parlay market outcome = record {
  id = i;
  parlay_id = parlay;
  market_id = market;
  outcome = outcome;
  selection_label = codes "Home";
  market_type = none;
  result = leg_pending;
}

abbrev legs : List ParlayLeg
legs = leg 1 20 7 0 ∷ leg 2 20 9 0 ∷ leg 3 21 7 2 ∷ []

legs-IsUnique : IsUnique leg_key legs
legs-IsUnique = omega arith

abbrev parlays : List Parlay
parlays = record { id = 20; status = pending } ∷ record { id = 21; status = pending } ∷ []

abbrev market : Market
market = record {
  id = 7;
  fixture_id = some 70;
  status = market_open;
  winning_outcome = none;
  home_score = none;
  away_score = none;
  needs_manual_review = false;
  is_prediction = false;
  start_time = 0;
}

abbrev db : Db
db = record { bets = bets; legs = legs; parlays = parlays; markets = market ∷ [] }

-- The void goes through, and the settlement was made before.
abbrev chain : Chain
chain = record {
  configured = true;
  void_bet = λ i. mined i;
  settle_market = failed (codes "reverted: MarketAlreadySettled()");
  cancel_market = mined 1;
}

abbrev event : FinishedEvent
event = record { fixture_id = 70; home_score = 2; away_score = 1 }

abbrev half_line : Line
half_line = record { negative = true; numerator = 15; scale = 10 }

plan_score_based_settlement-Settles_example :
    Settles 2 1
      (no_plan (some (2, 1)))
      (plan_score_based_settlement 7 2 1 bets)
      (select (is_planned 7) bets)
plan_score_based_settlement-Settles_example = plan_score_based_settlement-Settles 7 2 1 bets

plan_score_based_settlement-Reports_example :
    is_reported
      (plan_score_based_settlement 7 2 1 bets)
      (bet 5 "asian_handicap" 1 "Away (-0.25)" 195 pending)
    ≡ true
unfolding verdict resolve_asian_handicap_bet trim parse_label judge
plan_score_based_settlement-Reports_example =
    plan_score_based_settlement-Reports 7 2 1 bets 4
      (bet 5 "asian_handicap" 1 "Away (-0.25)" 195 pending) refl refl

execute_market_settlement-Final_example :
    Final 7 2 1 0 db bets-IsUnique
      (execute_market_settlement chain 7 0 (plan_score_based_settlement 7 2 1 bets) db)
execute_market_settlement-Final_example =
    execute_market_settlement-Final 7 2 1 0 db bets-IsUnique chain

reconcile_parlay_legs_lem_example :
    let run = reconcile_parlay_legs_for_market 7 2 1 legs parlays in
    (run.legs ≡ map (resolved 2 1 (on_market 7)) legs)
    × (run.parlays ≡ map (settled_parlay 7 legs run.legs) parlays)
reconcile_parlay_legs_lem_example = reconcile_parlay_legs_lem 7 2 1 legs parlays legs-IsUnique

abbrev rich_bets : List Bet
rich_bets = bet 1 "1X2" 0 "Home" 10_000_000_000 pending ∷ []

abbrev rich_db : Db
rich_db = record db { bets = rich_bets }

on_finished_gated_example :
    let db' = tables_after rich_db (on_finished chain event rich_db) in
    ((run : Executed) → on_finished chain event rich_db ≢ ran run)
    × (db'.bets ≡ rich_bets)
    × (db'.legs ≡ legs)
    × (db'.parlays ≡ parlays)
unfolding pending_by_market
on_finished_gated_example = on_finished_gated chain event rich_db market refl (omega arith)

on_finished_settles_example :
    (run : Executed) × (on_finished chain event db ≡ ran run) × Final 7 2 1 0 db bets-IsUnique run
unfolding pending_by_market
on_finished_settles_example =
    on_finished_settles chain event db market bets-IsUnique refl refl (omega arith)

-- Market 7 has a score and its game is live; market 9 is settled by the sweep.
abbrev sweep_db : Db
sweep_db = record db {
  markets =
      record market { home_score = some 2; away_score = some 1; status = market_settled }
      ∷ record market { id = 9; fixture_id = some 90; home_score = some 0; away_score = some 1 }
      ∷ [];
}

settle_finished_markets-spares_example :
    on 7 (tables_of (settle_finished_markets (λ m. chain) (70 ∷ []) 9_000_000 sweep_db)).bets
    ≡ on 7 bets
settle_finished_markets-spares_example =
    settle_finished_markets-spares (λ m. chain) (70 ∷ []) 9_000_000 7 sweep_db bets-IsUnique
      (inr refl, (inl (omega arith), tt))

held_back-is_swept_example :
    let db' = tables_after rich_db (on_finished chain event rich_db) in
    let m' = flag_review 7 (record_score 7 2 1 market) in
    (find_fixture 70 db'.markets ≡ some m') × (is_swept 5 db' m' ≡ true)
unfolding pending_by_market
held_back-is_swept_example =
    held_back-is_swept chain event rich_db market 5 refl (omega arith) refl refl (omega arith)
