-- ===== src/Settlement/Parlay/Laws.antt =====
-- What the reconciliation of parlays promises.
use sportystake.Base.{
  ℕ, ◌≡◌, refl, Bool, true, false, ◌&&◌, ◌||◌, ◌≢◌, ◌↔◌, Option, none, some, List, [], ◌∷◌, map,
  ◌==◌, if◌then◌else◌, arith, select, any, all, elem, not, Bool-cases, ==_iff, Option-cases, inl,
  inr, All, All-zip, All-tabulate, map_congr_All, IsUnique, sym, ◌∙◌, ◌++◌, foldl, map-map, map-id,
}
use sportystake.Settlement.Tables.{BetStatus, won, lost}
use sportystake.Settlement.Parlay.{
  ParlayLeg, Parlay, leg_result, set_result, update_leg, update_legs, is_lost, is_won_or_void,
  is_finished, legs_of, parlay_status, set_parlay, update_parlays, add_id, affected_ids,
  reconcile_parlay_legs_for_market,
}

-- No two legs share an id, which is the table's primary key.
abbrev pub leg_key : ParlayLeg → ℕ
leg_key leg = leg.id

module _ (home away : ℕ) where
  -- The updates of `found` on one leg.
  abbrev on_leg : List ParlayLeg → ParlayLeg → ParlayLeg
  on_leg [] leg = leg
  on_leg (f ∷ found) leg = on_leg found (update_leg f.id (leg_result home away f) leg)

  update_legs-map :
      (found legs : List ParlayLeg) → update_legs home away found legs ≡ map (on_leg found) legs
  unfolding update_legs
  update_legs-map [] legs = sym (map-id legs)
  update_legs-map (f ∷ found) legs =
      update_legs-map found _
      ∙ map-map (on_leg found) (update_leg f.id (leg_result home away f)) legs

  on_leg_absent :
      (p : ParlayLeg → Bool) (found : List ParlayLeg) (leg : ParlayLeg)
      → All (λ f. f.id ≢ leg.id) found
      → on_leg (select p found) leg ≡ leg
  on_leg_absent p [] leg h = refl
  on_leg_absent p (f ∷ found) leg (n, h) = ground (arith, on_leg_absent p found leg h)

  abbrev pub resolved : (ParlayLeg → Bool) → ParlayLeg → ParlayLeg
  resolved p leg = if p leg then set_result (leg_result home away leg) leg else leg

  on_leg_unique :
      (p : ParlayLeg → Bool) (legs : List ParlayLeg)
      → IsUnique leg_key legs
      → All (λ leg. on_leg (select p legs) leg ≡ resolved p leg) legs
  on_leg_unique p [] h = tt
  on_leg_unique p (leg ∷ legs) (new, h) = (
    ground (
      arith,
      on_leg_absent p legs leg new,
      on_leg_absent p legs (set_result (leg_result home away leg) leg) new,
    ),
    All-zip (λ other n e. ground arith) legs new (on_leg_unique p legs h),
  )

-- The status that the legs decide: lost as soon as one leg is lost, won once every leg is won or
-- void, and open as long as no leg is lost and one is pending.
pub parlay_status_iff :
    (legs : List ParlayLeg)
    → ((parlay_status legs ≡ some lost) ↔ (any (λ leg. is_lost leg.result) legs ≡ true))
      × ((parlay_status legs ≡ some won) ↔ (all (λ leg. is_won_or_void leg.result) legs ≡ true))
      × ((parlay_status legs ≡ none)
          ↔ (any (λ leg. is_lost leg.result) legs ≡ false)
            × (all (λ leg. is_finished leg.result) legs ≡ false))
unfolding parlay_status
parlay_status_iff legs = ground (arith, all_split legs)
  where
    all_split :
        (legs : List ParlayLeg)
        → all (λ leg. is_won_or_void leg.result) legs
          ≡ all (λ leg. is_finished leg.result) legs && not (any (λ leg. is_lost leg.result) legs)
    all_split [] = refl
    all_split (leg ∷ legs) = ground (arith, all_split legs)

abbrev pub with_status : Option BetStatus → Parlay → Parlay
with_status none p = p
with_status (some s) p = record p { status = s }

abbrev touched : List ParlayLeg → List ℕ → Parlay → Parlay
touched legs ids p = if elem p.id ids then with_status (parlay_status (legs_of p.id legs)) p else p

touched-cons :
    (legs : List ParlayLeg) (i : ℕ) (ids : List ℕ) (p : Parlay) (s : BetStatus)
    → parlay_status (legs_of i legs) ≡ some s
    → touched legs ids (set_parlay i s p) ≡ touched legs (i ∷ ids) p
touched-cons legs i ids p s e = elim (Bool-cases (p.id == i)) [
  | inl h ↦
      let same : p.id ≡ i = (==_iff p.id i).0 h in
      let here : parlay_status (legs_of p.id legs) ≡ some s = rw same e in ground (arith, here)
  | inr h ↦ ground arith
]

touched-skip :
    (legs : List ParlayLeg) (i : ℕ) (ids : List ℕ) (p : Parlay)
    → parlay_status (legs_of i legs) ≡ none
    → touched legs ids p ≡ touched legs (i ∷ ids) p
touched-skip legs i ids p e = elim (Bool-cases (p.id == i)) [
  | inl h ↦
      let same : p.id ≡ i = (==_iff p.id i).0 h in
      let here : parlay_status (legs_of p.id legs) ≡ none = rw same e in ground (arith, here)
  | inr h ↦ ground arith
]

update_parlays-map :
    (legs : List ParlayLeg) (ids : List ℕ) (parlays : List Parlay)
    → (update_parlays legs ids parlays).0 ≡ map (touched legs ids) parlays
unfolding update_parlays
update_parlays-map legs [] parlays = sym (map-id parlays)
update_parlays-map legs (i ∷ ids) parlays = elim (Option-cases (parlay_status (legs_of i legs))) [
  | inl e ↦ rw e (
      update_parlays-map legs ids parlays
      ∙ map_congr_All _ _ parlays (All-tabulate (λ p. touched-skip legs i ids p e) parlays))
  | inr (s, e) ↦ rw e (
      update_parlays-map legs ids _
      ∙ map-map _ _ parlays
      ∙ map_congr_All _ _ parlays (All-tabulate (λ p. touched-cons legs i ids p s e) parlays))
]

elem-append : (i j : ℕ) (ids : List ℕ) → elem i (ids ++ j ∷ []) ≡ (elem i ids || i == j)
elem-append i j [] = ground arith
elem-append i j (k ∷ ids) = ground (arith, elem-append i j ids)

foldl-add_id :
    (i : ℕ) (ids : List ℕ) (found : List ParlayLeg)
    → elem i (foldl add_id ids found) ≡ (elem i ids || any (λ leg. leg.parlay_id == i) found)
foldl-add_id i ids [] = ground arith
foldl-add_id i ids (leg ∷ found) = ground (
  arith,
  foldl-add_id i (add_id ids leg) found,
  elem-append i leg.parlay_id ids,
  ==_iff i leg.parlay_id,
)

-- The legs of one market, and those of one parlay.
abbrev pub on_market : ℕ → ParlayLeg → Bool
on_market market leg = leg.market_id == market

abbrev pub settled_parlay : ℕ → List ParlayLeg → List ParlayLeg → Parlay → Parlay
settled_parlay market legs legs' p =
    if any (λ leg. leg.parlay_id == p.id) (select (on_market market) legs)
    then with_status (parlay_status (legs_of p.id legs')) p
    else p

-- If no two legs share an id: the legs on the market get the results that the score gives them, no
-- other leg changes, and a parlay changes only if it has a leg on the market, to the status that all
-- its legs decide then.
pub reconcile_parlay_legs_lem :
    (market home away : ℕ) (legs : List ParlayLeg) (parlays : List Parlay)
    → IsUnique leg_key legs
    → let run = reconcile_parlay_legs_for_market market home away legs parlays in
      (run.legs ≡ map (resolved home away (on_market market)) legs)
      × (run.parlays ≡ map (settled_parlay market legs run.legs) parlays)
unfolding reconcile_parlay_legs_for_market
reconcile_parlay_legs_lem market home away legs parlays h =
    let found = select (on_market market) legs in
    let legs' = update_legs home away found legs in
    (
      update_legs-map home away found legs
          ∙ map_congr_All _ _ legs (on_leg_unique home away (on_market market) legs h),
      update_parlays-map legs' (affected_ids found) parlays
          ∙ map_congr_All _ _ parlays (All-tabulate (λ p. rw (foldl-add_id p.id [] found)) parlays),
    )
