-- ===== src/Settlement/Plan.antt =====
-- `planScoreBasedSettlement` and `planDirectOutcomeSettlement` (src/lib/server/settlement.ts).
pub mod Content
pub mod Groups
pub mod Reports
use mathlib.Core.List.{foldl}
use sportystake.Base.{
  ℕ, ◌+◌, Bool, true, false, not, ◌&&◌, ◌||◌, Option, none, some, List, [], ◌∷◌, ◌++◌, ◌==◌,
  if◌then◌else◌, Text, text_eq, select,
}
use sportystake.Settlement.Outcome.{
  Verdict, win, lose, push, unsupported, key_asian_handicap, key_double_chance,
  resolve_score_based_outcome, resolve_double_chance_bet,
}
use sportystake.Settlement.Outcome.Handicap.{resolve_asian_handicap_bet}
use sportystake.Settlement.Tables.{Bet, is_paid_out, pending_by_market}

-- An entry of `unresolved`: a market type, or "type:id" for one bet
pub data Unresolved : Type 0 where
  of_type : Text → Unresolved
  of_bet : Text → ℕ → Unresolved

abbrev pub same_entry : Unresolved → Unresolved → Bool
same_entry (of_type s) (of_type t) = text_eq s t
same_entry (of_bet s i) (of_bet t j) = text_eq s t && i == j
same_entry _ _ = false

-- `MarketSettlementPlan`
pub record Plan : Type 0 where
  pub winning_bet_ids : List ℕ
  pub voided_bet_ids : List ℕ
  pub total_payout : ℕ
  pub unresolved : List Unresolved
  pub scores : Option (ℕ × ℕ)

-- `new Set`, `add`: an entry that is there already is not added
abbrev pub add_new : Unresolved → List Unresolved → List Unresolved
add_new u [] = u ∷ []
add_new u (v ∷ vs) = if same_entry u v then v ∷ vs else v ∷ add_new u vs

abbrev pub add_winner : Plan → Bet → Plan
add_winner p b = record p {
  winning_bet_ids = p.winning_bet_ids ++ b.id ∷ [];
  total_payout = p.total_payout + b.potential_payout;
}

abbrev pub add_void : Plan → Bet → Plan
add_void p b = record p { voided_bet_ids = p.voided_bet_ids ++ b.id ∷ [] }

abbrev pub add_unresolved : Plan → Unresolved → Plan
add_unresolved p u = record p { unresolved = add_new u p.unresolved }

-- `byType`: the types in the order of their first bet, each with its bets in order
abbrev pub Groups : Type 0
Groups = List (Text × List Bet)

unfoldable pub add_to_group : Groups → Bet → Groups
add_to_group [] b = (b.market_type, b ∷ []) ∷ []
add_to_group ((key, bs) ∷ groups) b =
    let rest = add_to_group groups b in
    if text_eq key b.market_type then (key, bs ++ b ∷ []) ∷ groups else (key, bs) ∷ rest

unfoldable pub group_by_type : List Bet → Groups
unfolding add_to_group
group_by_type = foldl add_to_group []

-- The bodies of the three inner loops, the first two by the verdict.
abbrev pub apply_handicap : Plan → Bet → Verdict → Plan
apply_handicap p b win = add_winner p b
apply_handicap p b push = add_void p b
apply_handicap p b unsupported = add_unresolved p (of_bet key_asian_handicap b.id)
apply_handicap p b lose = p

unfoldable pub handicap_step : ℕ → ℕ → Plan → Bet → Plan
handicap_step home away p b =
    apply_handicap p b (resolve_asian_handicap_bet b.selection_label home away)

abbrev pub apply_double_chance : Plan → Bet → Verdict → Plan
apply_double_chance p b win = add_winner p b
apply_double_chance p b unsupported = add_unresolved p (of_bet key_double_chance b.id)
apply_double_chance p b _ = p

unfoldable pub double_chance_step : ℕ → ℕ → Plan → Bet → Plan
double_chance_step home away p b =
    apply_double_chance p b (resolve_double_chance_bet b.selection_label home away)

unfoldable pub outcome_step : ℕ → Plan → Bet → Plan
outcome_step winning_outcome p b = if b.outcome == winning_outcome then add_winner p b else p

-- One round of the loop over `byType`.
unfoldable pub plan_group : ℕ → ℕ → Plan → Text × List Bet → Plan
unfolding handicap_step double_chance_step outcome_step
plan_group home away p (market_type, bets) =
    if text_eq market_type key_asian_handicap
    then foldl (handicap_step home away) p bets
    else if text_eq market_type key_double_chance
    then foldl (double_chance_step home away) p bets
    else elim (resolve_score_based_outcome market_type home away) [
      | none ↦ add_unresolved p (of_type market_type)
      | some winning_outcome ↦ foldl (outcome_step winning_outcome) p bets
    ]

abbrev pub no_plan : Option (ℕ × ℕ) → Plan
no_plan scores = record {
  winning_bet_ids = [];
  voided_bet_ids = [];
  total_payout = 0;
  unresolved = [];
  scores = scores;
}

-- The rows that `planScoreBasedSettlement` reads.
abbrev pub is_planned : ℕ → Bet → Bool
is_planned market b = b.market_id == market && not (is_paid_out b.status)

unfoldable pub plan_score_based_settlement : ℕ → ℕ → ℕ → List Bet → Plan
unfolding group_by_type plan_group
plan_score_based_settlement market home away bets =
    foldl (plan_group home away) (no_plan (some (home, away)))
      (group_by_type (select (is_planned market) bets))

-- `planDirectOutcomeSettlement`
unfoldable pub direct_step : Text → ℕ → Plan → Bet → Plan
direct_step market_type winning_outcome p b =
    if not (text_eq b.market_type market_type)
    then record p { unresolved = p.unresolved ++ of_bet b.market_type b.id ∷ [] }
    else if b.outcome == winning_outcome
    then add_winner p b
    else p

unfoldable pub plan_direct_outcome_settlement : ℕ → Text → ℕ → List Bet → Plan
unfolding direct_step pending_by_market
plan_direct_outcome_settlement market market_type winning_outcome bets =
    foldl (direct_step market_type winning_outcome) (no_plan none) (pending_by_market market bets)

-- The specification: what becomes of one bet, whatever the other bets are.
unfoldable pub verdict : ℕ → ℕ → Bet → Verdict
verdict home away b =
    if text_eq b.market_type key_asian_handicap
    then resolve_asian_handicap_bet b.selection_label home away
    else if text_eq b.market_type key_double_chance
    then resolve_double_chance_bet b.selection_label home away
    else elim (resolve_score_based_outcome b.market_type home away) [
      | none ↦ unsupported
      | some winning_outcome ↦ if b.outcome == winning_outcome then win else lose
    ]
