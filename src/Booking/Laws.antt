-- ===== src/Booking/Laws.antt =====
-- A booking is found under its code.
use sportystake.Base.{
  ℕ, zero, suc, ◌+◌, ◌*◌, ◌≤◌, ◌≡◌, ◌≢◌, ◌↔◌, refl, sym, subst, ◌⊎◌, inl, inr, true, false, Option,
  none, some, List, [], ◌∷◌, ◌++◌, map, length, arith, All, All-append, Option-cases, Bool-cases,
  ltb, ◌==◌, if◌then◌else◌, Text, codes, text_eq, text_eq_refl, text_eq-eq, starts,
}
use sportystake.Booking.{
  BookableSelection, BookedBet, PlacedBet, PlacedParlay, expired, found, day, find_booked,
  pick_code, insert_booked, rounded_odds, odds_or_one, max_odds, shared_booking, with_code,
  create_booking_code, normal, bare, find_ticket, from_booked, look_up,
}

find_booked_last :
    (rows : List BookedBet) (b : BookedBet)
    → find_booked rows b.code ≡ none
    → find_booked (rows ++ b ∷ []) b.code ≡ some b
unfolding find_booked
find_booked_last [] b e = rw (text_eq_refl b.code) refl
find_booked_last (r ∷ rows) b e = elim (Bool-cases (text_eq r.code b.code)) [
  | inl h ↦ ground (arith, e, h)
  | inr h ↦ ground (arith, h, e, find_booked_last rows b)
]

-- No code begins like a shared text.
abbrev pub IsPlain : Text → Type 0
IsPlain code = starts (codes "ST-") code ≡ false

find_booked_shared :
    (rows : List BookedBet) (t : Text)
    → All (λ b. IsPlain b.code) rows
    → starts (codes "ST-") t ≡ true
    → find_booked rows t ≡ none
unfolding find_booked
find_booked_shared [] t plain h = refl
find_booked_shared (r ∷ rows) t (p, plain) h = elim (Bool-cases (text_eq r.code t)) [
  | inl e ↦
      let same = text_eq-eq r.code t e in
      absurd (cc (subst (λ c. starts (codes "ST-") c ≡ false) same p, h))
  | inr e ↦ rw e (find_booked_shared rows t plain h)
]

pick_code-IsPlain :
    (left : ℕ) (rows : List BookedBet) (generate_code : ℕ → Text) (i : ℕ)
    → ((n : ℕ) → IsPlain (generate_code n))
    → IsPlain (pick_code left rows generate_code i)
unfolding pick_code
pick_code-IsPlain zero rows generate_code i plain = plain i
pick_code-IsPlain (suc left) rows generate_code i plain =
    elim (Option-cases (find_booked rows (generate_code i))) [
      | inl e ↦ rw e (plain i)
      | inr (b, e) ↦ rw e (pick_code-IsPlain left rows generate_code (suc i) plain)
    ]

insert_booked-some :
    (rows rows' : List BookedBet) (b : BookedBet)
    → insert_booked rows b ≡ some rows'
    → (find_booked rows b.code ≡ none) × (rows' ≡ rows ++ b ∷ [])
unfolding insert_booked
insert_booked-some rows rows' b e = elim (Option-cases (find_booked rows b.code)) [
  | inl h ↦ (h, ground (arith, h, e))
  | inr (c, h) ↦ ground (arith, h, e)
]

find_ticket_as :
    (rows : List BookedBet) (b : BookedBet) (t : Text)
    → find_booked rows b.code ≡ some b
    → All (λ c. IsPlain c.code) rows
    → (t ≡ b.code) ⊎ (t ≡ codes "ST-" ++ b.code)
    → find_ticket rows t ≡ some b
unfolding find_ticket bare
find_ticket_as rows b t e plain (inl h) = rw (h, e) refl
find_ticket_as rows b t e plain (inr h) =
    rw (h, find_booked_shared rows (codes "ST-" ++ b.code) plain refl, e) refl

look_up-found :
    (rows : List BookedBet) (bets : List PlacedBet) (parlays : List PlacedParlay) (now : ℕ)
    (text : Text) (b : BookedBet)
    → find_ticket rows (normal text) ≡ some b
    → look_up rows bets parlays now text ≡ from_booked now b
unfolding look_up
look_up-found rows bets parlays now text b e = rw e refl

create_booking_code-some :
    (rows : List BookedBet) (generate_code : ℕ → Text) (now : ℕ)
    (selections : List BookableSelection) (created_by_id : Option Text) (code : Text)
    (rows' : List BookedBet)
    → create_booking_code rows generate_code now selections created_by_id ≡ some (code, rows')
    → let b = shared_booking rows generate_code now selections created_by_id in
      (b.code ≡ code) × (find_booked rows b.code ≡ none) × (rows' ≡ rows ++ b ∷ [])
unfolding create_booking_code
create_booking_code-some rows generate_code now selections created_by_id code rows' e =
    let b = shared_booking rows generate_code now selections created_by_id in
    elim (Option-cases (insert_booked rows b)) [
      | inl h ↦ absurd (ground (arith, h, e))
      | inr (all, h) ↦
          let (free, eq) = insert_booked-some rows all b h in
          (ground (arith, h, e), free, ground (arith, h, e, eq))
    ]

-- Selections that `createBookingCodeForSelections` books are found under the code, with or without ST- in front, white space
-- around it and in small letters, until 14 days are over, and are reported as expired after that.
-- The condition is that no code begins with ST-, neither in the table nor of those drawn.
pub look_up-create_booking_code :
    (rows : List BookedBet) (generate_code : ℕ → Text) (now : ℕ)
    (selections : List BookableSelection) (created_by_id : Option Text) (code : Text)
    (rows' : List BookedBet) (bets : List PlacedBet) (parlays : List PlacedParlay) (later : ℕ)
    (text : Text)
    → All (λ b. IsPlain b.code) rows
    → ((i : ℕ) → IsPlain (generate_code i))
    → create_booking_code rows generate_code now selections created_by_id ≡ some (code, rows')
    → (normal text ≡ code) ⊎ (normal text ≡ codes "ST-" ++ code)
    → look_up rows' bets parlays later text ≡ (
        if ltb (now + 14 * day) later
        then expired
        else found (record {
          code = code;
          total_odds = max_odds 1_000 (rounded_odds (map (λ s. odds_or_one s.odds) selections));
          item_count = length selections;
          selections = selections;
          created_at = now;
          expires_at = now + 14 * day;
        }))
look_up-create_booking_code rows generate_code now selections created_by_id code rows' bets parlays
      later text plain drawn e given =
    let b = shared_booking rows generate_code now selections created_by_id in
    let (same, free, added) =
      create_booking_code-some rows generate_code now selections created_by_id code rows' e in
    let all_plain : All (λ c. IsPlain c.code) rows' = rw added (
      All-append (λ c. IsPlain c.code) rows (b ∷ []) plain
        (pick_code-IsPlain 5 rows generate_code 0 drawn, tt)) in
    let here : find_booked rows' b.code ≡ some b = rw added (find_booked_last rows b free) in
    let found_it =
      find_ticket_as rows' b (normal text) here all_plain
        (subst (λ c. (normal text ≡ c) ⊎ (normal text ≡ codes "ST-" ++ c)) (sym same) given) in
    rw (← same) (look_up-found rows' bets parlays later text b found_it)

pick_code-ne-none :
    (left : ℕ) (rows : List BookedBet) (generate_code : ℕ → Text) (i : ℕ)
    → ((n : ℕ) → i ≤ n → n ≤ i + left → find_booked rows (generate_code n) ≢ none)
    → find_booked rows (pick_code left rows generate_code i) ≢ none
unfolding pick_code
pick_code-ne-none zero rows generate_code i taken = taken i (omega arith) (omega arith)
pick_code-ne-none (suc left) rows generate_code i taken =
    elim (Option-cases (find_booked rows (generate_code i))) [
      | inl e ↦ absurd (taken i (omega arith) (omega arith) e)
      | inr (b, e) ↦
          let rest =
            pick_code-ne-none left rows generate_code (suc i)
              (λ n low high. taken n (omega (arith, low)) (omega (arith, high))) in
          rw e rest
    ]

pick_code_free :
    (left : ℕ) (rows : List BookedBet) (generate_code : ℕ → Text) (i : ℕ)
    → find_booked rows (generate_code i) ≡ none
    → find_booked rows (pick_code (suc left) rows generate_code i) ≡ none
unfolding pick_code
pick_code_free left rows generate_code i e = rw (e, e) refl

pick_code_next :
    (left : ℕ) (rows : List BookedBet) (generate_code : ℕ → Text) (i : ℕ) (b : BookedBet)
    → find_booked rows (generate_code i) ≡ some b
    → pick_code (suc left) rows generate_code i ≡ pick_code left rows generate_code (suc i)
unfolding pick_code
pick_code_next left rows generate_code i b e = rw e refl

eq_or_less : (i n : ℕ) → i ≤ n → (i ≡ n) ⊎ (suc i ≤ n)
eq_or_less i n low = elim (Bool-cases (i == n)) [
  | inl e ↦ inl (ground (arith, e))
  | inr e ↦ inr (ground (arith, e, low))
]

pick_code_taken :
    (left : ℕ) (rows : List BookedBet) (generate_code : ℕ → Text) (i : ℕ)
    → find_booked rows (pick_code left rows generate_code i) ≢ none
    → (n : ℕ) → i ≤ n
    → n ≤ i + left
    → find_booked rows (generate_code n) ≢ none
pick_code_taken zero rows generate_code i taken n low high =
    let same : i ≡ n = omega (arith, low, high) in
    subst (λ m. find_booked rows (generate_code m) ≢ none) same (unfold pick_code in taken)
pick_code_taken (suc left) rows generate_code i taken n low high =
    elim (Option-cases (find_booked rows (generate_code i))) [
      | inl e ↦ absurd (taken (pick_code_free left rows generate_code i e))
      | inr (b, e) ↦
          let rest =
            subst (λ c. find_booked rows c ≢ none) (pick_code_next left rows generate_code i b e)
              taken in
          elim (eq_or_less i n low) [
            | inl same ↦
                subst (λ m. find_booked rows (generate_code m) ≢ none) same
                  (λ f. absurd (cc (e, f)))
            | inr less ↦
                pick_code_taken left rows generate_code (suc i) rest n less (omega (arith, high))
          ]
    ]

insert_booked-none :
    (rows : List BookedBet) (b : BookedBet)
    → (with_code b.code (insert_booked rows b) ≡ none) ↔ (find_booked rows b.code ≢ none)
unfolding insert_booked
insert_booked-none rows b = elim (Option-cases (find_booked rows b.code)) [
  | inl e ↦ (rw e (λ f. absurd (cc f)), λ taken. absurd (taken e))
  | inr (c, e) ↦ (rw e (λ f g. cc g), λ taken. rw e refl)
]

-- The booking throws exactly if each of the six codes that it can draw is taken.
pub create_booking_code_iff :
    (rows : List BookedBet) (generate_code : ℕ → Text) (now : ℕ)
    (selections : List BookableSelection) (created_by_id : Option Text)
    → (create_booking_code rows generate_code now selections created_by_id ≡ none)
      ↔ ((n : ℕ) → n ≤ 5 → find_booked rows (generate_code n) ≢ none)
unfolding create_booking_code
create_booking_code_iff rows generate_code now selections created_by_id =
    let b = shared_booking rows generate_code now selections created_by_id in
    let (to, from) = insert_booked-none rows b in
    (
      λ e n high. pick_code_taken 5 rows generate_code 0 (to e) n (omega arith) high,
      λ taken. from (pick_code-ne-none 5 rows generate_code 0 (λ n low high. taken n high)),
    )
