-- ===== src/Settlement/Execute/Final.antt =====
-- What settlement leaves in the bet table, bet by bet.
use sportystake.Base.{
  ap, ℕ, ◌≡◌, refl, ◌∙◌, Bool, some, List, [], ◌∷◌, map, map-map, if◌then◌else◌, arith, select,
  count, elem-count, sum_by, All, All-zip, IsUnique, at_key, sum_by_unique, sum_by-select,
}
use sportystake.Settlement.Outcome.{Verdict, win, push}
use sportystake.Settlement.Tables.{
  BetStatus, won, lost, cancelled, Bet, set_to, update_where, update_many, is_winner, is_voided,
  is_loser, reconcile_settlement,
}
use sportystake.Settlement.Plan.{Plan, is_planned, plan_score_based_settlement, verdict, no_plan}
use sportystake.Settlement.Plan.Content.{Settles, at, wins, pushes}
use sportystake.Settlement.Plan.Groups.{plan_score_based_settlement-Settles}

-- Bet ids are the table's primary key.
abbrev pub bet_key : Bet → ℕ
bet_key b = b.id

-- The status that a verdict gives.
abbrev pub status_of : Verdict → BetStatus
status_of win = won
status_of push = cancelled
status_of _ = lost

-- The specification: on the market every bet that is not yet paid out gets the status of its own
-- verdict, and every other bet stays as it is.
abbrev pub settle_bet : ℕ → ℕ → ℕ → Bet → Bet
settle_bet market home away b =
    if is_planned market b then set_to (status_of (verdict home away b)) b else b

update_many-map :
    (p : Bet → Bool) (s : BetStatus) (bets : List Bet)
    → (update_many p s bets).0 ≡ map (update_where p s) bets
update_many-map p s [] = refl
update_many-map p s (b ∷ bets) = rw (update_many-map p s bets)

-- The three updates on one row.
abbrev pub reconcile_bet : ℕ → List ℕ → List ℕ → Bet → Bet
reconcile_bet market winning voided b =
    update_where (is_loser market winning voided) lost
      (update_where (is_voided voided) cancelled (update_where (is_winner winning) won b))

pub reconcile_settlement-map :
    (market : ℕ) (winning voided : List ℕ) (bets : List Bet)
    → (reconcile_settlement market winning voided bets).0
      ≡ map (reconcile_bet market winning voided) bets
unfolding reconcile_settlement
reconcile_settlement-map market winning voided bets =
    update_many-map _ lost _
    ∙ ap (map _) (update_many-map _ cancelled _ ∙ ap (map _) (update_many-map _ won bets))
    ∙ ap (map _) (map-map _ _ bets)
    ∙ map-map _ _ bets

module _ (market home away : ℕ) (bets : List Bet) (unique : IsUnique bet_key bets) where
  abbrev pub plan : Plan
  plan = plan_score_based_settlement market home away bets

  abbrev pub won_weight : Bet → ℕ
  won_weight b = if is_planned market b then wins (verdict home away b) else 0

  abbrev pub void_weight : Bet → ℕ
  void_weight b = if is_planned market b then pushes (verdict home away b) else 0

  -- The two id lists of the plan hold an id as often as the bet with it wins, or is a push.
  abbrev pub IsListed : Bet → Type 0
  IsListed b =
      (count b.id plan.winning_bet_ids ≡ won_weight b)
      × (count b.id plan.voided_bet_ids ≡ void_weight b)

  sum_at :
      (w : Verdict → ℕ) (i : ℕ) (bs : List Bet)
      → sum_by (λ b. if is_planned market b then at i (λ b. w (verdict home away b)) b else 0) bs
        ≡ sum_by
            (at_key bet_key (λ b. if is_planned market b then w (verdict home away b) else 0) i)
            bs
  sum_at w i [] = refl
  sum_at w i (b ∷ bs) = ground (arith, sum_at w i bs)

  pub plan_lists : All IsListed bets
  plan_lists =
      All-zip
        (λ b e f. (
          omega (
            arith,
            content.winners b.id,
            at_planned (λ c. wins (verdict home away c)) b.id,
            sum_at wins b.id bets,
            e,
          ),
          omega (
            arith,
            content.refunds b.id,
            at_planned (λ c. pushes (verdict home away c)) b.id,
            sum_at pushes b.id bets,
            f,
          ),
        ))
        bets (sum_by_unique bet_key won_weight bets unique)
        (sum_by_unique bet_key void_weight bets unique)
    where
      content :
          Settles home away (no_plan (some (home, away))) plan (select (is_planned market) bets)
      content = plan_score_based_settlement-Settles market home away bets

      at_planned :
          (w : Bet → ℕ) (i : ℕ)
          → sum_by (at i w) (select (is_planned market) bets)
            ≡ sum_by (λ c. if is_planned market c then at i w c else 0) bets
      at_planned w i = sum_by-select (is_planned market) (at i w) bets

  pub reconcile_bet-listed :
      (b : Bet)
      → IsListed b
      → reconcile_bet market plan.winning_bet_ids plan.voided_bet_ids b
        ≡ settle_bet market home away b
  reconcile_bet-listed b (e, f) =
      ground (arith, elem-count b.id plan.winning_bet_ids, elem-count b.id plan.voided_bet_ids)
