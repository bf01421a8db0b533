-- ===== src/Crash/Bets/Joins.antt =====
-- Reported joins and cash-outs: one row for each transaction, and nothing but a note for a cash-out.
use sportystake.Base.{
  ℕ, ◌≤◌, ◌≡◌, refl, sym, ap, subst, ◌∙◌, inl, inr, true, false, Option, List, [], ◌∷◌, ◌++◌,
  sum_by, sum_by-append, arith, if◌then◌else◌, Text, text_eq, text_eq_refl, text_eq-eq, Bool-cases,
}
use sportystake.Verification.{Checked-cases, ok, refused, Receipt, Decoded}
use sportystake.Verification.CrashGame.{CrashArgs, VerifiedJoin, verify_round_joined}
use sportystake.Crash.Bets.{CasinoBet, has_tx, is_recorded, Joined, joined_bet, record_join, join}

-- How many rows a transaction has.
abbrev pub rows_of : Text → List CasinoBet → ℕ
rows_of tx = sum_by λ b. if has_tx tx b then 1 else 0

is_recorded-rows_of :
    (tx : Text) (bets : List CasinoBet) → is_recorded tx bets ≡ false → rows_of tx bets ≡ 0
is_recorded-rows_of tx [] h = refl
is_recorded-rows_of tx (b ∷ bets) h = ground (arith, is_recorded-rows_of tx bets)

is_recorded-append :
    (tx : Text) (bets more : List CasinoBet)
    → is_recorded tx (bets ++ more) ≡ (if is_recorded tx bets then true else is_recorded tx more)
is_recorded-append tx [] more = refl
is_recorded-append tx (b ∷ bets) more = ground (arith, is_recorded-append tx bets more)

module _ (user : ℕ) (wallet tx client_seed : Text) where
  record_join-rows_of :
      (bets : List CasinoBet) (v : VerifiedJoin) (t : Text)
      → rows_of t bets ≤ 1
      → rows_of t (record_join user wallet tx client_seed bets v).bets ≤ 1
  unfolding record_join
  record_join-rows_of bets v t h =
      let sum =
        sum_by-append (λ (b : CasinoBet). if has_tx t b then 1 else 0) bets
          (joined_bet user wallet tx client_seed v ∷ []) in
      elim (Bool-cases (is_recorded tx bets)) [
        | inl e ↦ rw e h
        | inr e ↦ elim (Bool-cases (text_eq tx t)) [
          | inl q ↦
              let same : tx ≡ t = text_eq-eq tx t q in
              let absent : rows_of t bets ≡ 0 =
                is_recorded-rows_of t bets (subst (λ x. is_recorded x bets ≡ false) same e) in
              rw e (ground (arith, sum, absent, q))
          | inr q ↦ rw e (ground (arith, sum, h, q))
        ]
      ]

  record_join-recorded :
      (bets : List CasinoBet) (v : VerifiedJoin)
      → is_recorded tx (record_join user wallet tx client_seed bets v).bets ≡ true
  unfolding record_join
  record_join-recorded bets v = ground (
    arith,
    is_recorded-append tx bets (joined_bet user wallet tx client_seed v ∷ []),
    text_eq_refl tx,
  )

  record_join-again :
      (bets : List CasinoBet) (v : VerifiedJoin)
      → is_recorded tx bets ≡ true
      → record_join user wallet tx client_seed bets v
        ≡ record { round_id = v.round_id; amount = v.amount; idempotent = true; bets = bets }
  unfolding record_join
  record_join-again bets v e = rw e refl

  record_join-answer :
      (bets : List CasinoBet) (v : VerifiedJoin)
      → let j = record_join user wallet tx client_seed bets v in
        record_join user wallet tx client_seed j.bets v ≡ record j { idempotent = true }
  record_join-answer bets v =
      let j = record_join user wallet tx client_seed bets v in
      let fields : (j.round_id ≡ v.round_id) × (j.amount ≡ v.amount) =
        unfold record_join in
        elim (Bool-cases (is_recorded tx bets)) [
          | inl e ↦ rw e (refl, refl)
          | inr e ↦ rw e (refl, refl)
        ] in
      let again = record_join-again j.bets v (record_join-recorded bets v) in
      ground (arith, again, fields)

  -- A join that is reported once more is answered as before, adds no row, and is marked as known; and
  -- no report of a join leaves a transaction with two rows.
  pub join_twice :
      {Log : Type 0} (decode : Log → Option (Decoded CrashArgs)) (contract : Text)
      (found : Option (Receipt Log)) (bets : List CasinoBet) (j : Joined)
      → ((t : Text) → rows_of t bets ≤ 1)
      → join decode contract user wallet tx client_seed found bets ≡ ok j
      → (join decode contract user wallet tx client_seed found j.bets
          ≡ ok (record j { idempotent = true }))
        × ((t : Text) → rows_of t j.bets ≤ 1)
  unfolding join
  join_twice decode contract found bets j once e =
      elim (Checked-cases (verify_round_joined decode contract found wallet)) [
        | inl (error, r) ↦ let wrong : refused error ≡ ok j = sym (rw r refl) ∙ e in cc
        | inr (v, r) ↦
            let answer : ok (record_join user wallet tx client_seed bets v) ≡ ok j =
              sym (rw r refl) ∙ e in
            let same : record_join user wallet tx client_seed bets v ≡ j = cc in
            (
              rw (r, sym same) (ap ok (record_join-answer bets v)),
              λ t. rw (sym same) (record_join-rows_of bets v t (once t)),
            )
      ]
