-- ===== src/Casino/Blackjack/Hand/Runs.antt =====
-- A hand from its deal through all the requests on it.
use sportystake.Base.{
  ℕ, ◌≤◌, ◌≡◌, refl, subst, inl, inr, true, false, not, some, List, [], ◌∷◌, arith, if◌then◌else◌,
  Bool-cases, Option-cases, length, sum_by,
}
use sportystake.Casino.Blackjack.{Shoe, is_bust}
use sportystake.Casino.Blackjack.Hand.{
  House, resolved, Hand, finish_blackjack_hand, Action, Response, replayed, conflict, failed,
  next_turn, finished, is_player_turn, or_failed, act,
}
use sportystake.Casino.Blackjack.{is_natural_blackjack, deal_initial}
use sportystake.Casino.Blackjack.Value.{hand_value_lem}
use sportystake.Casino.Blackjack.Dealing.{deal_initial-IsDistinct}
use sportystake.Casino.Blackjack.Hand.{new_hand, deal_hand}
use sportystake.Casino.Blackjack.Hand.Laws.{
  IsValid, is_refused, is_finished, or_failed-PlayedOn, turn_of, act_lem,
}

-- Requests one after the other, with the answers.
abbrev pub run : House → Shoe → List (Action × ℕ) → Hand → List Response × Hand
run house shoe [] h = ([], h)
run house shoe ((action, seq) ∷ requests) h =
    let (r, h') = act house shoe action seq h in
    let (rs, h'') = run house shoe requests h' in (r ∷ rs, h'')

abbrev pub finishes : List Response → ℕ
finishes = sum_by λ r. if is_finished r then 1 else 0

act-resolved :
    (house : House) (shoe : Shoe) (action : Action) (seq : ℕ) (h : Hand)
    → h.status ≡ resolved
    → act house shoe action seq h ≡ (replayed, h)
unfolding act
act-resolved house shoe action seq h ended = rw ended refl

refused-is_finished : (r : Response) → is_refused r ≡ true → is_finished r ≡ false
refused-is_finished replayed e = refl
refused-is_finished conflict e = refl
refused-is_finished failed e = cc
refused-is_finished next_turn e = cc
refused-is_finished finished e = cc

resolved_stays :
    (house : House) (shoe : Shoe) (requests : List (Action × ℕ)) (h : Hand)
    → h.status ≡ resolved
    → finishes (run house shoe requests h).0 ≡ 0
resolved_stays house shoe [] h ended = refl
resolved_stays house shoe ((action, seq) ∷ requests) h ended =
    rw (act-resolved house shoe action seq h ended)
      (omega (arith, resolved_stays house shoe requests h ended))

-- Whatever requests come one after the other on a valid hand, at most one of them finishes it.
pub run-finishes :
    (house : House) (shoe : Shoe) (requests : List (Action × ℕ)) (h : Hand)
    → IsValid h
    → IsValid (run house shoe requests h).1 × (finishes (run house shoe requests h).0 ≤ 1)
run-finishes house shoe [] h valid = (valid, omega arith)
run-finishes house shoe ((action, seq) ∷ requests) h valid =
    let (r, h') = act house shoe action seq h in
    let (valid', how) = act_lem house shoe action seq h valid in
    let (after, once) = run-finishes house shoe requests h' valid' in
    elim how [
      | inl (refused, same, why) ↦
          let quiet = refused-is_finished r refused in (after, ground arith)
      | inr (accepted, turn, same, next, ends) ↦ elim (turn_of h'.status) [
        | inl (e, playing) ↦ (after, ground arith)
        | inr (e, ended) ↦
            let none_left = resolved_stays house shoe requests h' ended in (after, ground arith)
      ]
    ]

-- Two cards are never bust.
two_cards-is_bust : (cards : List ℕ) → length cards ≡ 2 → is_bust cards ≡ false
unfolding is_bust
two_cards-is_bust (a ∷ b ∷ []) h =
    let (high, few, total, soft, low, most) = hand_value_lem (a ∷ b ∷ []) in ground arith
two_cards-is_bust [] h = ground arith
two_cards-is_bust (a ∷ []) h = ground arith
two_cards-is_bust (a ∷ b ∷ c ∷ cs) h = ground arith

-- A hand that is dealt is valid, and it is resolved exactly if the answer is that it is finished.
pub deal_hand_lem :
    (house : House) (shoe : Shoe) (stake : ℕ) (r : Response) (h : Hand)
    → deal_hand house shoe stake ≡ some (r, h)
    → IsValid h × (is_finished r ≡ not (is_player_turn h.status))
unfolding deal_hand
deal_hand_lem house shoe stake r h e = elim (Option-cases (deal_initial shoe)) [
  | inl u ↦ ground (arith, e, u)
  | inr (d, u) ↦
      let (distinct, two, two') = deal_initial-IsDistinct shoe d u in
      let start = new_hand stake d in
      let valid : IsValid start = record {
        distinct = distinct;
        in_play = two_cards-is_bust d.player_cards two;
      } in
      elim (Bool-cases (is_natural_blackjack d.player_cards)) [
        | inr n ↦
            let first : Response × Hand = (next_turn, start) in
            let out : Response × Hand = (r, h) in
            let same : first ≡ out = ground (arith, e, u, n) in
            subst (λ x. IsValid x.1 × (is_finished x.0 ≡ not (is_player_turn x.1.status))) same
              (valid, refl)
        | inl n ↦
            let step =
              or_failed-PlayedOn house shoe start d.player_cards d.cursor false valid refl
                (inr refl) in
            let same : or_failed start
                  (finish_blackjack_hand house shoe start d.player_cards d.cursor false)
                ≡ (r, h) =
              ground (arith, e, u, n) in
            subst (λ x. IsValid x.1 × (is_finished x.0 ≡ not (is_player_turn x.1.status))) same
              (step.valid, step.ends)
      ]
]
