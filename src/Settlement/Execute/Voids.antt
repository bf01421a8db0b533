-- ===== src/Settlement/Execute/Voids.antt =====
-- The loop that voids bets on chain: it changes nothing that the reconciliation behind it would not
-- change in the same way, whatever the transactions come to.
use sportystake.Base.{
  ℕ, ◌≡◌, refl, ◌∙◌, true, List, [], ◌∷◌, map, map-map, ◌==◌, ==_iff, arith, elem, All, All-zip,
  All-map, map_congr_All, Bool-cases, inl, inr,
}
use sportystake.Settlement.Tables.{BetStatus, cancelled, Bet, set_to, update_where, set_status}
use sportystake.Settlement.Execute.{
  TxResult, mined, failed, void_bets, void_result, find_bet, is_cancelled_row, is_void_skip,
}
use sportystake.Settlement.Plan.{is_planned, verdict}
use sportystake.Settlement.Execute.Final.{reconcile_bet, settle_bet}

-- A bet on the void list is on the market, and not paid out.
abbrev pub IsSafe : ℕ → List ℕ → Bet → Type 0
IsSafe market voided b = elem b.id voided ≡ true → is_planned market b ≡ true

-- What a cancelled row on the void list comes to is what the row would have come to.
abbrev pub Absorbs : ℕ → List ℕ → (Bet → Bet) → Type 0
Absorbs market voided reconciled =
    (b : Bet)
    → elem b.id voided ≡ true
    → is_planned market b ≡ true
    → reconciled (set_to cancelled b) ≡ reconciled b

pub reconcile_bet-Absorbs :
    (market : ℕ) (winning voided : List ℕ)
    → Absorbs market voided (reconcile_bet market winning voided)
reconcile_bet-Absorbs market winning voided b listed open_bet = ground arith

-- A verdict does not read the status.
verdict-set_to :
    (home away : ℕ) (s : BetStatus) (b : Bet) → verdict home away (set_to s b) ≡ verdict home away b
unfolding verdict
verdict-set_to home away s b = refl

cancelled-is_planned :
    (market : ℕ) (b : Bet)
    → is_planned market b ≡ true
    → is_planned market (set_to cancelled b) ≡ true
cancelled-is_planned market b h = ground arith

pub settle_bet-Absorbs :
    (market home away : ℕ) (voided : List ℕ) → Absorbs market voided (settle_bet market home away)
settle_bet-Absorbs market home away voided b listed planned =
    rw (planned, cancelled-is_planned market b planned, verdict-set_to home away cancelled b)

module _ (market : ℕ) (voided : List ℕ) (reconciled : Bet → Bet)
    (absorbs : Absorbs market voided reconciled) where
  cancel_row-reconciled :
      (i : ℕ) (b : Bet)
      → elem i voided ≡ true
      → IsSafe market voided b
      → reconciled (update_where (λ c. c.id == i) cancelled b) ≡ reconciled b
  cancel_row-reconciled i b listed safe = elim (Bool-cases (b.id == i)) [
    | inl h ↦
        let same : b.id ≡ i = (==_iff b.id i).0 h in
        let on_list : elem b.id voided ≡ true = rw same listed in
        rw h (absorbs b on_list (safe on_list))
    | inr h ↦ rw h
  ]

  cancel_row-IsSafe :
      (i : ℕ) (b : Bet)
      → IsSafe market voided b
      → IsSafe market voided (update_where (λ c. c.id == i) cancelled b)
  cancel_row-IsSafe i b safe = elim (Bool-cases (b.id == i)) [
    | inl h ↦ rw h (λ l. cancelled-is_planned market b (safe l))
    | inr h ↦ rw h safe
  ]

  set_status-reconciled :
      (i : ℕ) (bets : List Bet)
      → elem i voided ≡ true
      → All (IsSafe market voided) bets
      → (map reconciled (set_status i cancelled bets) ≡ map reconciled bets)
        × All (IsSafe market voided) (set_status i cancelled bets)
  unfolding set_status
  set_status-reconciled i bets listed safe = (
    map-map reconciled _ bets
        ∙ map_congr_All _ _ bets
            (All-zip (λ b s _. cancel_row-reconciled i b listed s) bets safe safe),
    All-map (IsSafe market voided) _ bets
        (All-zip (λ b s _. cancel_row-IsSafe i b s) bets safe safe),
  )

  abbrev Kept : List Bet → List Bet → Type 0
  Kept bets bets' = (map reconciled bets' ≡ map reconciled bets) × All (IsSafe market voided) bets'

  void_result-Kept :
      (i : ℕ) (tx : TxResult) (bets : List Bet)
      → elem i voided ≡ true
      → All (IsSafe market voided) bets
      → Kept bets (void_result i tx bets)
  void_result-Kept i (mined hash) bets listed safe = set_status-reconciled i bets listed safe
  void_result-Kept i (failed message) bets listed safe = elim (Bool-cases (is_void_skip message)) [
    | inl e ↦ rw e (set_status-reconciled i bets listed safe)
    | inr e ↦ rw e (refl, safe)
  ]

  pub void_bets-Kept :
      (tx : ℕ → TxResult) (ids : List ℕ) (bets : List Bet)
      → All (λ i. elem i voided ≡ true) ids
      → All (IsSafe market voided) bets
      → Kept bets (void_bets tx ids bets).0
  unfolding void_bets
  void_bets-Kept tx [] bets listed safe = (refl, safe)
  void_bets-Kept tx (i ∷ ids) bets (now, listed) safe =
      elim (Bool-cases (is_cancelled_row (find_bet i bets))) [
        | inl e ↦ rw e (void_bets-Kept tx ids bets listed safe)
        | inr e ↦
            let (same, safe') = void_result-Kept i (tx i) bets now safe in
            let (rest, safe'') = void_bets-Kept tx ids (void_result i (tx i) bets) listed safe' in
            rw e (rest ∙ same, safe'')
      ]

elem_self :
    (xs ys : List ℕ)
    → ((i : ℕ) → elem i xs ≡ true → elem i ys ≡ true)
    → All (λ i. elem i ys ≡ true) xs
elem_self [] ys h = tt
elem_self (x ∷ xs) ys h = (h x (ground arith), elem_self xs ys (λ i e. h i (ground arith)))

pub All-elem : (xs : List ℕ) → All (λ i. elem i xs ≡ true) xs
All-elem xs = elem_self xs xs (λ i e. e)
