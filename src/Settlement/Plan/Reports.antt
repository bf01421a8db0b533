-- ===== src/Settlement/Plan/Reports.antt =====
-- Every bet that the resolvers cannot decide is named in the plan's `unresolved` list, by its type
-- or by its id.
use mathlib.Core.List.{foldl}
use sportystake.Base.{
  get_elem?, All-get_elem?, ℕ, ◌≡◌, refl, ◌∙◌, ◌≢◌, Bool, true, ◌||◌, some, List, [], ◌∷◌, ◌++◌,
  arith, ◌==◌, if◌then◌else◌, Text, text_eq, text_eq-eq, text_eq_refl, select, any, All-append,
  sum_by, All, Bool-cases, Option-cases, inl, inr,
}
use sportystake.Settlement.Outcome.{
  Verdict, win, lose, push, unsupported, key_asian_handicap, key_double_chance,
  resolve_score_based_outcome,
}
use sportystake.Settlement.Tables.{Bet}
use sportystake.Settlement.Plan.{
  Plan, Unresolved, of_type, of_bet, same_entry, add_new, add_unresolved, apply_handicap,
  apply_double_chance, Groups, group_by_type, handicap_step, double_chance_step, outcome_step,
  plan_group, no_plan, is_planned, plan_score_based_settlement, verdict,
}
use sportystake.Settlement.Plan.Groups.{
  HasType, IsGrouped, flat, foldl-add_to_group, verdict-asian_handicap, verdict-double_chance,
  verdict-score,
}

abbrev pub has_entry : Unresolved → List Unresolved → Bool
has_entry u = any (same_entry u)

-- The plan names the bet's type, or the bet.
abbrev pub is_reported : Plan → Bet → Bool
is_reported p b =
    has_entry (of_type b.market_type) p.unresolved
    || has_entry (of_bet b.market_type b.id) p.unresolved

same_entry_refl : (u : Unresolved) → same_entry u u ≡ true
same_entry_refl (of_type s) = text_eq_refl s
same_entry_refl (of_bet s i) = rw (text_eq_refl s) (ground arith)

has_entry-add_new_self : (u : Unresolved) (us : List Unresolved) → has_entry u (add_new u us) ≡ true
has_entry-add_new_self u [] = rw (same_entry_refl u)
has_entry-add_new_self u (v ∷ us) = elim (Bool-cases (same_entry u v)) [
  | inl e ↦ rw (e, e)
  | inr e ↦ rw (e, e, has_entry-add_new_self u us)
]

has_entry-add_new :
    (v u : Unresolved) (us : List Unresolved)
    → has_entry v us ≡ true
    → has_entry v (add_new u us) ≡ true
has_entry-add_new v u [] h = cc
has_entry-add_new v u (x ∷ us) h = elim (Bool-cases (same_entry u x)) [
  | inl e ↦ rw e h
  | inr e ↦ elim (Bool-cases (same_entry v x)) [
    | inl f ↦ rw (e, f)
    | inr f ↦ rw (e, f, has_entry-add_new v u us (rw f at h))
  ]
]

module _ (home away : ℕ) where
  abbrev IsCovered : Plan → Bet → Type 0
  IsCovered p b = verdict home away b ≡ unsupported → is_reported p b ≡ true

  -- From `p` to `p'` no entry is lost, and the bets `bs` are covered.
  pub record Reports (p p' : Plan) (bs : List Bet) : Type 0 where
    pub keeps :
        (u : Unresolved) → has_entry u p.unresolved ≡ true → has_entry u p'.unresolved ≡ true
    pub covers : All (IsCovered p') bs

  IsCovered-later :
      (p p' : Plan) (b : Bet)
      → ((u : Unresolved) → has_entry u p.unresolved ≡ true → has_entry u p'.unresolved ≡ true)
      → IsCovered p b
      → IsCovered p' b
  IsCovered-later p p' b keeps c e =
      elim (Bool-cases (has_entry (of_type b.market_type) p.unresolved)) [
        | inl f ↦ rw (keeps _ f)
        | inr f ↦ rw (keeps (of_bet b.market_type b.id) (rw f at (c e))) (ground arith)
      ]

  Reports-refl : (p : Plan) → Reports p p []
  Reports-refl p = record { keeps = λ u h. h; covers = tt }

  All-IsCovered :
      (p p' : Plan) (bs : List Bet)
      → ((u : Unresolved) → has_entry u p.unresolved ≡ true → has_entry u p'.unresolved ≡ true)
      → All (IsCovered p) bs
      → All (IsCovered p') bs
  All-IsCovered p p' [] keeps h = tt
  All-IsCovered p p' (b ∷ bs) keeps (c, h) =
      (IsCovered-later p p' b keeps c, All-IsCovered p p' bs keeps h)

  Reports-trans :
      (p q r : Plan) (xs ys : List Bet) → Reports p q xs → Reports q r ys → Reports p r (xs ++ ys)
  Reports-trans p q r xs ys f g = record {
    keeps = λ u h. g.keeps u (f.keeps u h);
    covers = All-append (IsCovered r) xs ys (All-IsCovered q r xs g.keeps f.covers) g.covers;
  }

  -- A step that leaves the list alone, on a bet that is decided.
  Reports-decided :
      (p p' : Plan) (b : Bet)
      → p'.unresolved ≡ p.unresolved
      → verdict home away b ≢ unsupported
      → Reports p p' (b ∷ [])
  Reports-decided p p' b same decided = record {
    keeps = λ u h. rw same h;
    covers = (λ e. absurd (decided e), tt);
  }

  Reports-entry :
      (p : Plan) (b : Bet) (key : Text)
      → b.market_type ≡ key
      → Reports p (add_unresolved p (of_bet key b.id)) (b ∷ [])
  Reports-entry p b key t = record {
    keeps = λ u h. has_entry-add_new u (of_bet key b.id) p.unresolved h;
    covers =
        (λ e. rw (t, has_entry-add_new_self (of_bet key b.id) p.unresolved) (ground arith), tt);
  }

  apply_handicap-Reports :
      (p : Plan) (b : Bet) (v : Verdict)
      → b.market_type ≡ key_asian_handicap
      → verdict home away b ≡ v
      → Reports p (apply_handicap p b v) (b ∷ [])
  apply_handicap-Reports p b win t e = Reports-decided p _ b refl (rw e (λ c. cc))
  apply_handicap-Reports p b lose t e = Reports-decided p _ b refl (rw e (λ c. cc))
  apply_handicap-Reports p b push t e = Reports-decided p _ b refl (rw e (λ c. cc))
  apply_handicap-Reports p b unsupported t e = Reports-entry p b key_asian_handicap t

  apply_double_chance-Reports :
      (p : Plan) (b : Bet) (v : Verdict)
      → b.market_type ≡ key_double_chance
      → verdict home away b ≡ v
      → Reports p (apply_double_chance p b v) (b ∷ [])
  apply_double_chance-Reports p b win t e = Reports-decided p _ b refl (rw e (λ c. cc))
  apply_double_chance-Reports p b lose t e = Reports-decided p _ b refl (rw e (λ c. cc))
  apply_double_chance-Reports p b push t e = Reports-decided p _ b refl (rw e (λ c. cc))
  apply_double_chance-Reports p b unsupported t e = Reports-entry p b key_double_chance t

  outcome_step-Reports :
      (p : Plan) (b : Bet) (w : ℕ)
      → verdict home away b ≡ (if b.outcome == w then win else lose)
      → Reports p (outcome_step w p b) (b ∷ [])
  unfolding outcome_step
  outcome_step-Reports p b w e = elim (Bool-cases (b.outcome == w)) [
    | inl hit ↦ rw hit (Reports-decided p _ b refl (rw (e, hit) (λ c. cc)))
    | inr miss ↦ rw miss (Reports-decided p _ b refl (rw (e, miss) (λ c. cc)))
  ]

  foldl-Reports :
      (P : Bet → Type 0) (step : Plan → Bet → Plan)
      → ((p : Plan) (b : Bet) → P b → Reports p (step p b) (b ∷ []))
      → (p : Plan) (bs : List Bet) → All P bs
      → Reports p (foldl step p bs) bs
  foldl-Reports P step one p [] h = Reports-refl p
  foldl-Reports P step one p (b ∷ bs) h =
      Reports-trans p (step p b) (foldl step (step p b) bs) (b ∷ []) bs (one p b h.0)
        (foldl-Reports P step one (step p b) bs h.1)

  IsCovered-by_type :
      (p : Plan) (key : Text) (bs : List Bet)
      → All (HasType key) bs
      → All (IsCovered (add_unresolved p (of_type key))) bs
  IsCovered-by_type p key [] h = tt
  IsCovered-by_type p key (b ∷ bs) (t, h) =
      (λ e. rw (t, has_entry-add_new_self (of_type key) p.unresolved), IsCovered-by_type p key bs h)

  plan_group-Reports :
      (p : Plan) (key : Text) (bs : List Bet)
      → All (HasType key) bs
      → Reports p (plan_group home away p (key, bs)) bs
  unfolding plan_group
  plan_group-Reports p key bs all = elim (Bool-cases (text_eq key key_asian_handicap)) [
    | inl h ↦ rw h (
        foldl-Reports (HasType key) (handicap_step home away)
          (λ q b t.
            apply_handicap-Reports q b _ (t ∙ text_eq-eq _ _ h)
              (verdict-asian_handicap home away key b h t))
          p bs all)
    | inr h ↦ elim (Bool-cases (text_eq key key_double_chance)) [
      | inl k ↦
          rw (h, k)
            (foldl-Reports (HasType key) (double_chance_step home away)
              (λ q b t.
                apply_double_chance-Reports q b _ (t ∙ text_eq-eq _ _ k)
                  (verdict-double_chance home away key b h k t))
              p bs all)
      | inr k ↦ elim (Option-cases (resolve_score_based_outcome key home away)) [
        | inl e ↦
            rw (h, k, e)
              (record {
                keeps = λ u g. has_entry-add_new u (of_type key) p.unresolved g;
                covers = IsCovered-by_type p key bs all;
              })
        | inr (w, e) ↦
            rw (h, k, e)
              (foldl-Reports (HasType key) (outcome_step w)
                (λ q b t. outcome_step-Reports q b w (verdict-score home away key b h k t ∙ rw e)) p
                bs all)
      ]
    ]
  ]

  groups-Reports :
      (p : Plan) (groups : Groups)
      → IsGrouped groups
      → Reports p (foldl (plan_group home away) p groups) (flat groups)
  groups-Reports p [] h = Reports-refl p
  groups-Reports p ((key, bs) ∷ groups) (h, hs) =
      let q = plan_group home away p (key, bs) in
      Reports-trans p q (foldl (plan_group home away) q groups) bs (flat groups)
        (plan_group-Reports p key bs h) (groups-Reports q groups hs)

  -- How many of the bets are undecided and not reported.
  abbrev missed : Plan → Bet → ℕ
  missed p b = elim (verdict home away b) [ unsupported ↦ if is_reported p b then 0 else 1 | _ ↦ 0 ]

  missed-covered : (p : Plan) (bs : List Bet) → All (IsCovered p) bs → sum_by (missed p) bs ≡ 0
  missed-covered p [] h = refl
  missed-covered p (b ∷ bs) (c, h) = ground (arith, missed-covered p bs h)

  IsCovered-missed : (p : Plan) (bs : List Bet) → sum_by (missed p) bs ≡ 0 → All (IsCovered p) bs
  IsCovered-missed p [] h = tt
  IsCovered-missed p (b ∷ bs) h = (λ e. ground arith, IsCovered-missed p bs (omega arith))

IsCovered-plan :
    (market home away : ℕ) (bets : List Bet)
    → All
        (IsCovered home away (plan_score_based_settlement market home away bets))
        (select (is_planned market) bets)
unfolding plan_score_based_settlement
IsCovered-plan market home away bets =
    let chosen = select (is_planned market) bets in
    let start = no_plan (some (home, away)) in
    let result = foldl (plan_group home away) start (group_by_type chosen) in
    let (grouped, same) = foldl-add_to_group (missed home away result) [] chosen tt in
    IsCovered-missed home away result chosen (
      omega (
        arith,
        same,
        missed-covered home away result (flat (group_by_type chosen))
            (groups-Reports home away start (group_by_type chosen) grouped).covers,
      ))

-- Every bet of the market that is not paid out and has no verdict is named in `unresolved`.
pub plan_score_based_settlement-Reports :
    (market home away : ℕ) (bets : List Bet) (i : ℕ) (b : Bet)
    → get_elem? (select (is_planned market) bets) i ≡ some b
    → verdict home away b ≡ unsupported
    → is_reported (plan_score_based_settlement market home away bets) b ≡ true
plan_score_based_settlement-Reports market home away bets i b =
    All-get_elem? (IsCovered home away (plan_score_based_settlement market home away bets)) _ i b
      (IsCovered-plan market home away bets)
