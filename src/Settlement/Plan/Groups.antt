-- ===== src/Settlement/Plan/Groups.antt =====
-- The loop over the market types: grouping the bets loses and invents none, and a group has one way
-- to resolve.
use mathlib.Core.List.{foldl}
use sportystake.Base.{
  ℕ, ◌+◌, ◌≡◌, refl, true, false, none, some, List, [], ◌∷◌, ◌++◌, arith, ◌==◌, if◌then◌else◌, Text,
  text_eq, text_eq-eq, select, sum_by, sum_by-append, All, All-append, Bool-cases, Option-cases,
  inl, inr, ◌∙◌, sym,
}
use sportystake.Settlement.Outcome.{
  Verdict, win, lose, unsupported, key_asian_handicap, key_double_chance,
  resolve_score_based_outcome, resolve_double_chance_bet,
}
use sportystake.Settlement.Outcome.Handicap.{resolve_asian_handicap_bet}
use sportystake.Settlement.Tables.{Bet}
use sportystake.Settlement.Plan.{
  Plan, Unresolved, Groups, add_unresolved, of_type, add_to_group, group_by_type, handicap_step,
  double_chance_step, outcome_step, plan_group, no_plan, is_planned, plan_score_based_settlement,
  verdict,
}
use sportystake.Settlement.Plan.Content.{
  Settles, at, wins, pushes, paid, Settles-refl, Settles-trans, Settles-win, Settles-lose,
  foldl-Settles, apply_handicap-Settles, apply_double_chance-Settles,
  resolve_double_chance_bet-ne-push,
}

abbrev pub HasType : Text → Bet → Type 0
HasType key b = b.market_type ≡ key

abbrev pub flat : Groups → List Bet
flat [] = []
flat ((key, bs) ∷ groups) = bs ++ flat groups

abbrev pub IsGrouped : Groups → Type 0
IsGrouped = All (λ g. All (HasType g.0) g.1)

add_to_group-IsGrouped :
    (groups : Groups) (b : Bet) → IsGrouped groups → IsGrouped (add_to_group groups b)
unfolding add_to_group
add_to_group-IsGrouped [] b h = ((refl, tt), tt)
add_to_group-IsGrouped ((key, bs) ∷ groups) b (h, hs) =
    elim (Bool-cases (text_eq key b.market_type)) [
      | inl e ↦ rw e (All-append (HasType key) bs (b ∷ []) h (sym (text_eq-eq _ _ e), tt), hs)
      | inr e ↦ rw e (h, add_to_group-IsGrouped groups b hs)
    ]

sum_by-add_to_group :
    (w : Bet → ℕ) (groups : Groups) (b : Bet)
    → sum_by w (flat (add_to_group groups b)) ≡ sum_by w (flat groups) + w b
unfolding add_to_group
sum_by-add_to_group w [] b = omega arith
sum_by-add_to_group w ((key, bs) ∷ groups) b = elim (Bool-cases (text_eq key b.market_type)) [
  | inl e ↦ rw e (
      omega (
        arith,
        sum_by-append {0} w (bs ++ b ∷ []) (flat groups),
        sum_by-append {0} w bs (b ∷ []),
        sum_by-append {0} w bs (flat groups),
      ))
  | inr e ↦ rw e (
      omega (
        arith,
        sum_by-add_to_group w groups b,
        sum_by-append {0} w bs (flat (add_to_group groups b)),
        sum_by-append {0} w bs (flat groups),
      ))
]

pub foldl-add_to_group :
    (w : Bet → ℕ) (groups : Groups) (bets : List Bet)
    → IsGrouped groups
    → IsGrouped (foldl add_to_group groups bets)
      × (sum_by w (flat (foldl add_to_group groups bets)) ≡ sum_by w (flat groups) + sum_by w bets)
foldl-add_to_group w groups [] h = (h, omega arith)
foldl-add_to_group w groups (b ∷ bets) h =
    let (ok, sums) =
      foldl-add_to_group w (add_to_group groups b) bets (add_to_group-IsGrouped groups b h) in
    (ok, omega (arith, sums, sum_by-add_to_group w groups b))

module _ (home away : ℕ) where
  pub verdict-asian_handicap :
      (key : Text) (b : Bet)
      → text_eq key key_asian_handicap ≡ true
      → HasType key b
      → verdict home away b ≡ resolve_asian_handicap_bet b.selection_label home away
  unfolding verdict
  verdict-asian_handicap key b h e = rw (e, h)

  pub verdict-double_chance :
      (key : Text) (b : Bet)
      → text_eq key key_asian_handicap ≡ false
      → text_eq key key_double_chance ≡ true
      → HasType key b
      → verdict home away b ≡ resolve_double_chance_bet b.selection_label home away
  unfolding verdict
  verdict-double_chance key b h k e = rw (e, h, k)

  pub verdict-score :
      (key : Text) (b : Bet)
      → text_eq key key_asian_handicap ≡ false
      → text_eq key key_double_chance ≡ false
      → HasType key b
      → verdict home away b ≡ elim (resolve_score_based_outcome key home away) as (λ _. Verdict) [
        | none ↦ unsupported
        | some winning_outcome ↦ if b.outcome == winning_outcome then win else lose
      ]
  unfolding verdict
  verdict-score key b h k e = rw (e, h, k)

  Settles-note :
      (p : Plan) (u : Unresolved) (bs : List Bet)
      → All (λ b. verdict home away b ≡ unsupported) bs
      → Settles home away p (add_unresolved p u) bs
  Settles-note p u [] h = record {
    winners = λ i. omega arith;
    refunds = λ i. omega arith;
    payout = omega arith;
  }
  Settles-note p u (b ∷ bs) (e, h) =
      let rest = Settles-note p u bs h in
      record {
        winners = λ i. rw e (ground (arith, rest.winners i));
        refunds = λ i. rw e (ground (arith, rest.refunds i));
        payout = rw e (omega (arith, rest.payout));
      }

  All-unsupported :
      (key : Text) (bs : List Bet)
      → text_eq key key_asian_handicap ≡ false
      → text_eq key key_double_chance ≡ false
      → resolve_score_based_outcome key home away ≡ none
      → All (HasType key) bs
      → All (λ b. verdict home away b ≡ unsupported) bs
  All-unsupported key [] h k e all = tt
  All-unsupported key (b ∷ bs) h k e (t, all) =
      (verdict-score key b h k t ∙ rw e, All-unsupported key bs h k e all)

  outcome_step-Settles :
      (p : Plan) (b : Bet) (w : ℕ)
      → verdict home away b ≡ (if b.outcome == w then win else lose)
      → Settles home away p (outcome_step w p b) (b ∷ [])
  unfolding outcome_step
  outcome_step-Settles p b w e = elim (Bool-cases (b.outcome == w)) [
    | inl hit ↦ rw hit (Settles-win home away p b (e ∙ rw hit))
    | inr miss ↦ rw miss (Settles-lose home away p b (e ∙ rw miss))
  ]

  plan_group-Settles :
      (p : Plan) (key : Text) (bs : List Bet)
      → All (HasType key) bs
      → Settles home away p (plan_group home away p (key, bs)) bs
  unfolding plan_group
  plan_group-Settles p key bs all = elim (Bool-cases (text_eq key key_asian_handicap)) [
    | inl h ↦ rw h (
        foldl-Settles home away (HasType key) (handicap_step home away)
          (λ q b t. apply_handicap-Settles home away q b _ (verdict-asian_handicap key b h t)) p bs
          all)
    | inr h ↦ elim (Bool-cases (text_eq key key_double_chance)) [
      | inl k ↦
          rw (h, k)
            (foldl-Settles home away (HasType key) (double_chance_step home away)
              (λ q b t.
                apply_double_chance-Settles home away q b _
                  (resolve_double_chance_bet-ne-push b.selection_label home away)
                  (verdict-double_chance key b h k t))
              p bs all)
      | inr k ↦ elim (Option-cases (resolve_score_based_outcome key home away)) [
        | inl e ↦ rw (h, k, e) (Settles-note p (of_type key) bs (All-unsupported key bs h k e all))
        | inr (w, e) ↦
            rw (h, k, e)
              (foldl-Settles home away (HasType key) (outcome_step w)
                (λ q b t. outcome_step-Settles q b w (verdict-score key b h k t ∙ rw e)) p bs all)
      ]
    ]
  ]

  groups-Settles :
      (p : Plan) (groups : Groups)
      → IsGrouped groups
      → Settles home away p (foldl (plan_group home away) p groups) (flat groups)
  groups-Settles p [] h = Settles-refl home away p
  groups-Settles p ((key, bs) ∷ groups) (h, hs) =
      let q = plan_group home away p (key, bs) in
      Settles-trans home away p q (foldl (plan_group home away) q groups) bs (flat groups)
        (plan_group-Settles p key bs h) (groups-Settles q groups hs)

-- What the settlement of a market's bets pays and refunds is decided bet by bet: grouping by market
-- type and the order of the loops change nothing.
pub plan_score_based_settlement-Settles :
    (market home away : ℕ) (bets : List Bet)
    → Settles home away
        (no_plan (some (home, away)))
        (plan_score_based_settlement market home away bets)
        (select (is_planned market) bets)
unfolding plan_score_based_settlement
plan_score_based_settlement-Settles market home away bets =
    let chosen = select (is_planned market) bets in
    let start = no_plan (some (home, away)) in
    let grouped = (foldl-add_to_group (λ _. 0) [] chosen tt).0 in
    let all = groups-Settles home away start (group_by_type chosen) grouped in
    record {
      winners = λ i. omega (
        arith,
        all.winners i,
        (foldl-add_to_group (at i (λ b. wins (verdict home away b))) [] chosen tt).1,
      );
      refunds = λ i. omega (
        arith,
        all.refunds i,
        (foldl-add_to_group (at i (λ b. pushes (verdict home away b))) [] chosen tt).1,
      );
      payout = omega (
        arith,
        all.payout,
        (foldl-add_to_group (λ b. paid (verdict home away b) b.potential_payout) [] chosen tt).1,
      );
    }
