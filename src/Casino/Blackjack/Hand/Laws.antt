-- ===== src/Casino/Blackjack/Hand/Laws.antt =====
-- What a hand of blackjack keeps through its actions.
use sportystake.Base.{
  ℕ, suc, ◌*◌, ◌≡◌, ◌≢◌, refl, sym, subst, ◌⊎◌, inl, inr, Bool, true, false, ◌&&◌, not, some, List,
  [], ◌∷◌, ◌++◌, arith, ◌==◌, Bool-cases, Option-cases, count-append,
}
use sportystake.Casino.Blackjack.{
  Shoe, draw_within, draw_card, Played, stands, draw_failed, spent, play_dealer, Evaluated,
  evaluate_hand, is_bust,
}
use sportystake.Casino.Blackjack.Dealing.{
  IsDistinct, draw_card-fresh, IsDistinct-add, play_dealer-IsDistinct,
}
use sportystake.Casino.Blackjack.Hand.{
  House, HandStatus, player_turn, resolved, Hand, gated_multiplier, payout_for, final_payout, book,
  settle_hand, dealer_fuel, bust_result, settle_played, finish_blackjack_hand, Action, hit, stand,
  Response, replayed, conflict, finished, is_player_turn, claim, or_failed, hit_with, act_claimed,
  act,
}

-- The cards on the table are distinct, and a player whose turn it is is not bust.
pub record IsValid (h : Hand) : Type 0 where
  pub distinct : IsDistinct (h.player_cards ++ h.dealer_cards)
  pub in_play : is_player_turn h.status && is_bust h.player_cards ≡ false

IsDistinct-swap : (xs ys : List ℕ) → IsDistinct (xs ++ ys) → IsDistinct (ys ++ xs)
IsDistinct-swap xs ys h c =
    let here = h c in omega (arith, count-append c xs ys, count-append c ys xs)

-- What a settlement leaves of the rows.
abbrev Booked : Hand → List ℕ → Hand → Type 0
Booked h dealer_cards h' =
    (h'.status ≡ resolved)
    × (h'.action_seq ≡ h.action_seq)
    × (h'.player_cards ≡ h.player_cards)
    × (h'.dealer_cards ≡ dealer_cards)

settle_hand-Booked :
    (house : House) (h : Hand) (player dealer : List ℕ) (e : Evaluated) (h' : Hand)
    → settle_hand house h player dealer e ≡ some h'
    → Booked h dealer h'
unfolding settle_hand book
settle_hand-Booked house h player dealer e h' q =
    let m = gated_multiplier h.stake house.available_capacity e in
    elim (Option-cases
      (final_payout (payout_for h.stake m) (house.settle (m * 100) (payout_for h.stake m)))) [
        | inl u ↦ ground (arith, q, u)
        | inr (final, u) ↦
            let same : book h player dealer m final ≡ h' = ground (arith, q, u) in
            subst (Booked h dealer) same (refl, refl, refl, refl)
      ]

finish-IsDistinct :
    (house : House) (shoe : Shoe) (h : Hand) (player : List ℕ) (cursor : ℕ) (busted : Bool)
    (h' : Hand)
    → IsDistinct (h.player_cards ++ h.dealer_cards)
    → (busted ≡ true) ⊎ (player ≡ h.player_cards)
    → finish_blackjack_hand house shoe h player cursor busted ≡ some h'
    → (h'.status ≡ resolved)
      × (h'.action_seq ≡ h.action_seq)
      × IsDistinct (h'.player_cards ++ h'.dealer_cards)
unfolding finish_blackjack_hand
finish-IsDistinct house shoe h player cursor true h' distinct c e =
    let (ended, seq, p, d) = settle_hand-Booked house h player h.dealer_cards bust_result h' e in
    (ended, seq, rw (p, d) distinct)
finish-IsDistinct house shoe h player cursor false h' distinct c e =
    by_play (play_dealer dealer_fuel shoe h.dealer_cards player cursor) refl e
  where
    by_play :
        (played : Played)
        → play_dealer dealer_fuel shoe h.dealer_cards player cursor ≡ played
        → settle_played house h player played ≡ some h'
        → (h'.status ≡ resolved)
          × (h'.action_seq ≡ h.action_seq)
          × IsDistinct (h'.player_cards ++ h'.dealer_cards)
    by_play draw_failed q s = cc
    by_play spent q s = cc
    by_play (stands cards end) q s = elim c [
      | inl f ↦ cc
      | inr same ↦
          let begin : IsDistinct (h.dealer_cards ++ player) =
            rw same (IsDistinct-swap h.player_cards h.dealer_cards distinct) in
          let (high, fresh) =
            play_dealer-IsDistinct dealer_fuel shoe h.dealer_cards player cursor cards end begin
              q in
          let (ended, seq, p, d) =
            settle_hand-Booked house h player cards (evaluate_hand player cards) h' s in
          (ended, seq, rw (p, d, sym same) (IsDistinct-swap cards player fresh))
    ]

abbrev pub is_refused : Response → Bool
is_refused replayed = true
is_refused conflict = true
is_refused _ = false

abbrev pub is_finished : Response → Bool
is_finished finished = true
is_finished _ = false

-- What a claimed action does to a hand.
pub record PlayedOn (h : Hand) (r : Response) (h' : Hand) : Type 0 where
  pub valid : IsValid h'
  pub accepted : is_refused r ≡ false
  pub seq : h'.action_seq ≡ h.action_seq
  pub ends : is_finished r ≡ not (is_player_turn h'.status)

pub or_failed-PlayedOn :
    (house : House) (shoe : Shoe) (h : Hand) (player : List ℕ) (cursor : ℕ) (busted : Bool)
    → IsValid h
    → h.status ≡ player_turn
    → (busted ≡ true) ⊎ (player ≡ h.player_cards)
    → let (r, h') = or_failed h (finish_blackjack_hand house shoe h player cursor busted) in
      PlayedOn h r h'
or_failed-PlayedOn house shoe h player cursor busted valid turn c =
    elim (Option-cases (finish_blackjack_hand house shoe h player cursor busted)) [
      | inl u ↦ rw u (record { valid = valid; accepted = refl; seq = refl; ends = rw turn refl })
      | inr (h', u) ↦
          let (ended, seq, distinct) =
            finish-IsDistinct house shoe h player cursor busted h' valid.distinct c u in
          rw u (record {
            valid = record { distinct = distinct; in_play = rw ended refl };
            accepted = refl;
            seq = seq;
            ends = rw ended refl;
          })
    ]

act_claimed-PlayedOn :
    (house : House) (shoe : Shoe) (h : Hand) (action : Action)
    → IsValid h
    → h.status ≡ player_turn
    → let (r, h') = act_claimed house shoe h action in PlayedOn h r h'
unfolding act_claimed hit_with draw_card draw_within
act_claimed-PlayedOn house shoe h stand valid turn =
    or_failed-PlayedOn house shoe h h.player_cards h.cursor false valid turn (inr refl)
act_claimed-PlayedOn house shoe h hit valid turn =
    elim (Option-cases (draw_card shoe (h.player_cards ++ h.dealer_cards) h.cursor)) [
      | inl u ↦ rw u (record { valid = valid; accepted = refl; seq = refl; ends = rw turn refl })
      | inr (d, u) ↦
          let player = h.player_cards ++ d.card ∷ [] in
          let (fresh, later) = draw_card-fresh shoe _ h.cursor d u in
          elim (Bool-cases (is_bust player)) [
            | inl b ↦
                rw (u, b)
                  (or_failed-PlayedOn house shoe h player d.next_cursor true valid turn (inl refl))
            | inr b ↦
                rw (u, b)
                  (record {
                    valid = record {
                      distinct =
                          IsDistinct-add h.player_cards h.dealer_cards d.card fresh valid.distinct;
                      in_play = rw (turn, b) refl;
                    };
                    accepted = refl;
                    seq = refl;
                    ends = rw turn refl;
                  })
          ]
    ]

pub turn_of :
    (s : HandStatus)
    → (is_player_turn s ≡ true) × (s ≡ player_turn) ⊎ (is_player_turn s ≡ false) × (s ≡ resolved)
turn_of player_turn = inl (refl, refl)
turn_of resolved = inr (refl, refl)

-- A request on a valid hand leaves a valid hand. It is refused and changes nothing exactly if the
-- hand is resolved or the sequence number is not the hand's; otherwise the number goes up by one,
-- and the hand is resolved exactly if the answer is that it is finished.
pub act_lem :
    (house : House) (shoe : Shoe) (action : Action) (seq : ℕ) (h : Hand)
    → IsValid h
    → let (r, h') = act house shoe action seq h in
      IsValid h'
      × ((is_refused r ≡ true) × (h' ≡ h) × ((h.status ≡ resolved) ⊎ (h.action_seq ≢ seq))
          ⊎ (is_refused r ≡ false)
            × (h.status ≡ player_turn)
            × (h.action_seq ≡ seq)
            × (h'.action_seq ≡ suc seq)
            × (is_finished r ≡ not (is_player_turn h'.status)))
unfolding act
act_lem house shoe action seq h valid = elim (turn_of h.status) [
  | inr (e, ended) ↦ rw e (valid, inl (refl, refl, inl ended))
  | inl (e, turn) ↦ elim (Bool-cases (h.action_seq == seq)) [
    | inr f ↦ rw (e, f) (valid, inl (refl, refl, inr (ground arith)))
    | inl f ↦
        let claimed : IsValid (claim h) = record {
          distinct = valid.distinct;
          in_play = valid.in_play;
        } in
        let step = act_claimed-PlayedOn house shoe (claim h) action claimed turn in
        let same : h.action_seq ≡ seq = ground arith in
        rw (e, f) (step.valid, inr (step.accepted, turn, same, omega (arith, step.seq), step.ends))
  ]
]
