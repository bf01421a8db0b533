-- ===== src/Settlement/Parlay.antt =====
-- `reconcileParlayLegsForMarket` (src/lib/server/settlement.ts): the legs on a market get their
-- results, and each parlay with such a leg its status. Time stamps are left out.
pub mod Laws
use mathlib.Core.List.{foldl}
use sportystake.Base.{
  ℕ, ◌+◌, Bool, true, false, ◌&&◌, ◌||◌, Option, none, some, List, [], ◌∷◌, ◌++◌, map, ◌==◌,
  if◌then◌else◌, Text, text_eq, select, any, all, elem, length,
}
use sportystake.Settlement.Outcome.{
  Verdict, win, lose, push, unsupported, key_1x2, key_asian_handicap, key_double_chance,
  resolve_score_based_outcome, resolve_double_chance_bet,
}
use sportystake.Settlement.Outcome.Handicap.{resolve_asian_handicap_bet}
use sportystake.Settlement.Tables.{BetStatus, won, lost}

pub data LegResult : Type 0 where
  leg_pending leg_won leg_lost leg_void : LegResult

pub record ParlayLeg : Type 0 where
  pub id : ℕ
  pub parlay_id : ℕ
  pub market_id : ℕ
  pub outcome : ℕ
  pub selection_label : Text
  pub market_type : Option Text
  pub result : LegResult

pub record Parlay : Type 0 where
  pub id : ℕ
  pub status : BetStatus

abbrev pub of_handicap : Verdict → LegResult
of_handicap win = leg_won
of_handicap push = leg_void
of_handicap _ = leg_lost

abbrev pub of_double_chance : Verdict → LegResult
of_double_chance win = leg_won
of_double_chance _ = leg_lost

-- `leg.marketType ?? "1X2"`
abbrev pub type_or_1x2 : Option Text → Text
type_or_1x2 none = key_1x2
type_or_1x2 (some t) = t

-- `leg.marketType === key`
abbrev pub is_type : Text → Option Text → Bool
is_type key none = false
is_type key (some t) = text_eq t key

-- The result that the loop over the legs computes for one of them.
unfoldable pub leg_result : ℕ → ℕ → ParlayLeg → LegResult
leg_result home away leg =
    if is_type key_asian_handicap leg.market_type
    then of_handicap (resolve_asian_handicap_bet leg.selection_label home away)
    else if is_type key_double_chance leg.market_type
    then of_double_chance (resolve_double_chance_bet leg.selection_label home away)
    else elim (resolve_score_based_outcome (type_or_1x2 leg.market_type) home away) [
      | none ↦ leg_lost
      | some winning_outcome ↦ if leg.outcome == winning_outcome then leg_won else leg_lost
    ]

abbrev pub set_result : LegResult → ParlayLeg → ParlayLeg
set_result r leg = record leg { result = r }

-- `prisma.parlayLeg.update`, by the primary key
abbrev pub update_leg : ℕ → LegResult → ParlayLeg → ParlayLeg
update_leg i r leg = if leg.id == i then set_result r leg else leg

-- The loop over the legs of the market.
unfoldable pub update_legs : ℕ → ℕ → List ParlayLeg → List ParlayLeg → List ParlayLeg
update_legs home away [] legs = legs
update_legs home away (leg ∷ found) legs =
    update_legs home away found (map (update_leg leg.id (leg_result home away leg)) legs)

-- `affectedParlayIds`
abbrev pub add_id : List ℕ → ParlayLeg → List ℕ
add_id ids leg = if elem leg.parlay_id ids then ids else ids ++ leg.parlay_id ∷ []

unfoldable pub affected_ids : List ParlayLeg → List ℕ
affected_ids = foldl add_id []

abbrev pub is_lost : LegResult → Bool
is_lost leg_lost = true
is_lost _ = false

abbrev pub is_won_or_void : LegResult → Bool
is_won_or_void leg_won = true
is_won_or_void leg_void = true
is_won_or_void _ = false

abbrev pub is_finished : LegResult → Bool
is_finished leg_pending = false
is_finished _ = true

abbrev pub legs_of : ℕ → List ParlayLeg → List ParlayLeg
legs_of parlay = select (λ leg. leg.parlay_id == parlay)

-- What becomes of a parlay: `none` leaves its status.
unfoldable pub parlay_status : List ParlayLeg → Option BetStatus
parlay_status legs =
    let any_lost = any (λ leg. is_lost leg.result) legs in
    let all_finished = all (λ leg. is_finished leg.result) legs in
    let all_won_or_void = all (λ leg. is_won_or_void leg.result) legs in
    if any_lost then some lost else if all_finished && all_won_or_void then some won else none

abbrev pub set_parlay : ℕ → BetStatus → Parlay → Parlay
set_parlay i s p = if p.id == i then record p { status = s } else p

-- The loop over the affected parlays, with the number resolved.
unfoldable pub update_parlays : List ParlayLeg → List ℕ → List Parlay → List Parlay × ℕ
unfolding parlay_status
update_parlays legs [] parlays = (parlays, 0)
update_parlays legs (i ∷ ids) parlays =
    let status = parlay_status (legs_of i legs) in
    let next : List Parlay = elim status [
      | none ↦ parlays
      | some s ↦ map (set_parlay i s) parlays
    ] in
    let (rest, n) = update_parlays legs ids next in
    let found = any (λ p. p.id == i) parlays in
    (rest, (elim status [ none ↦ 0 | some _ ↦ if found then 1 else 0 ]) + n)

pub record ParlayRun : Type 0 where
  pub legs : List ParlayLeg
  pub parlays : List Parlay
  pub resolved_legs : ℕ
  pub resolved_parlays : ℕ

unfoldable pub reconcile_parlay_legs_for_market :
    ℕ → ℕ → ℕ → List ParlayLeg → List Parlay → ParlayRun
unfolding update_legs affected_ids update_parlays
reconcile_parlay_legs_for_market market home away legs parlays =
    let found = select (λ leg. leg.market_id == market) legs in
    let legs' = update_legs home away found legs in
    let (parlays', n) = update_parlays legs' (affected_ids found) parlays in
    record { legs = legs'; parlays = parlays'; resolved_legs = length found; resolved_parlays = n }
