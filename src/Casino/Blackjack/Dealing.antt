-- ===== src/Casino/Blackjack/Dealing.antt =====
-- Drawing without repetition, and the dealer's play.
use sportystake.Base.{
  ℕ, zero, suc, ◌+◌, ◌≤◌, ◌<◌, ◌≡◌, ◌≢◌, subst, inl, inr, false, some, List, [], ◌∷◌, ◌++◌, arith,
  ltb, ◌==◌, elem, count, count-append, elem-count, length, length-append, sum_by-append,
  Bool-cases, Option-cases,
}
use sportystake.Casino.Blackjack.{
  Shoe, Draw, draw_within, max_attempts, draw_card, Deal, used_by, deal_round, no_deal,
  deal_initial, stands, spent, play_dealer, dealer_should_hit, hand_value,
}
use sportystake.Casino.Blackjack.Value.{hard_value, hard_total, hand_value_lem}

-- No card is there twice.
abbrev pub IsDistinct : List ℕ → Type 0
IsDistinct cards = (c : ℕ) → count c cards ≤ 1

draw_within-fresh :
    (attempts : ℕ) (shoe : Shoe) (used : List ℕ) (cursor : ℕ) (d : Draw)
    → draw_within attempts shoe used cursor ≡ some d
    → (elem d.card used ≡ false) × (cursor < d.next_cursor)
unfolding draw_within
draw_within-fresh zero shoe used cursor d e = cc
draw_within-fresh (suc attempts) shoe used cursor d e = elim (Option-cases (shoe cursor)) [
  | inl u ↦ ground (arith, e, u)
  | inr (card, u) ↦ elim (Bool-cases (elem card used)) [
    | inl v ↦
        let (fresh, later) =
          draw_within-fresh attempts shoe used (suc cursor) d (ground (arith, e, u, v)) in
        (fresh, omega arith)
    | inr v ↦
        let same : record { card = card; next_cursor = suc cursor } ≡ d = ground (arith, e, u, v) in
        subst (λ x. (elem x.card used ≡ false) × (cursor < x.next_cursor)) same (v, omega arith)
  ]
]

-- The next card is one that is not used yet.
pub draw_card-fresh :
    (shoe : Shoe) (used : List ℕ) (cursor : ℕ) (d : Draw)
    → draw_card shoe used cursor ≡ some d
    → (elem d.card used ≡ false) × (cursor < d.next_cursor)
unfolding draw_card
draw_card-fresh = draw_within-fresh max_attempts

pub IsDistinct-add :
    (xs ys : List ℕ) (card : ℕ)
    → elem card (xs ++ ys) ≡ false
    → IsDistinct (xs ++ ys)
    → IsDistinct ((xs ++ card ∷ []) ++ ys)
IsDistinct-add xs ys card fresh distinct c =
    let here = distinct c in
    let none_yet = elem-count card (xs ++ ys) in
    let all = count-append c xs ys in
    let one = count-append c xs (card ∷ []) in
    let more = count-append c (xs ++ card ∷ []) ys in
    elim (Bool-cases (c == card)) [
      | inl q ↦ let same : c ≡ card = ground arith in ground arith
      | inr q ↦ ground arith
    ]

IsDistinct-add_end :
    (xs ys : List ℕ) (card : ℕ)
    → elem card (xs ++ ys) ≡ false
    → IsDistinct (xs ++ ys)
    → IsDistinct (xs ++ (ys ++ card ∷ []))
IsDistinct-add_end xs ys card fresh distinct c =
    let here = distinct c in
    let none_yet = elem-count card (xs ++ ys) in
    let all = count-append c xs ys in
    let one = count-append c ys (card ∷ []) in
    let more = count-append c xs (ys ++ card ∷ []) in
    elim (Bool-cases (c == card)) [
      | inl q ↦ let same : c ≡ card = ground arith in ground arith
      | inr q ↦ ground arith
    ]

-- If the dealer's and the player's cards are distinct: the dealer stands on 17 or more, and the
-- cards are distinct still.
pub play_dealer-IsDistinct :
    (fuel : ℕ) (shoe : Shoe) (dealer player : List ℕ) (cursor : ℕ) (cards : List ℕ) (end : ℕ)
    → IsDistinct (dealer ++ player)
    → play_dealer fuel shoe dealer player cursor ≡ stands cards end
    → (17 ≤ (hand_value cards).total) × IsDistinct (cards ++ player)
unfolding play_dealer dealer_should_hit
play_dealer-IsDistinct zero shoe dealer player cursor cards end distinct e = ground (arith, e)
play_dealer-IsDistinct (suc fuel) shoe dealer player cursor cards end distinct e =
    elim (Bool-cases (ltb (hand_value dealer).total 17)) [
      | inr u ↦
          let same : dealer ≡ cards = ground (arith, e, u) in
          subst (λ cs. (17 ≤ (hand_value cs).total) × IsDistinct (cs ++ player)) same
            (ground arith, distinct)
      | inl u ↦ elim (Option-cases (draw_card shoe (dealer ++ player) cursor)) [
        | inl v ↦ ground (arith, e, u, v)
        | inr (d, v) ↦
            let (fresh, later) = draw_card-fresh shoe (dealer ++ player) cursor d v in
            play_dealer-IsDistinct fuel shoe (dealer ++ d.card ∷ []) player d.next_cursor cards end
              (IsDistinct-add dealer player d.card fresh distinct) (ground (arith, e, u, v))
      ]
    ]

play_dealer_runs :
    (fuel : ℕ) (shoe : Shoe) (dealer player : List ℕ) (cursor : ℕ)
    → 0 < fuel
    → 17 < fuel + hard_total dealer
    → play_dealer fuel shoe dealer player cursor ≢ spent
unfolding play_dealer dealer_should_hit
play_dealer_runs zero shoe dealer player cursor pos h e = omega arith
play_dealer_runs (suc fuel) shoe dealer player cursor pos h e =
    elim (Bool-cases (ltb (hand_value dealer).total 17)) [
      | inr u ↦ ground (arith, e, u)
      | inl u ↦ elim (Option-cases (draw_card shoe (dealer ++ player) cursor)) [
        | inl v ↦ ground (arith, e, u, v)
        | inr (d, v) ↦
            let (high, few, total, soft, low, most) = hand_value_lem dealer in
            let more = sum_by-append hard_value dealer (d.card ∷ []) in
            play_dealer_runs fuel shoe (dealer ++ d.card ∷ []) player d.next_cursor (ground arith)
              (ground arith) (ground (arith, e, u, v))
      ]
    ]

-- Eighteen rounds are enough for the dealer: each card counts one at least, and he stands on 17.
pub play_dealer-ne-spent :
    (fuel : ℕ) (shoe : Shoe) (dealer player : List ℕ) (cursor : ℕ)
    → 17 < fuel
    → play_dealer fuel shoe dealer player cursor ≢ spent
play_dealer-ne-spent fuel shoe dealer player cursor h =
    play_dealer_runs fuel shoe dealer player cursor (omega arith) (omega arith)

deal_round-IsDistinct :
    (shoe : Shoe) (d d' : Deal)
    → IsDistinct (used_by d)
    → deal_round shoe d ≡ some d'
    → IsDistinct (used_by d')
      × (length d'.player_cards ≡ suc (length d.player_cards))
      × (length d'.dealer_cards ≡ suc (length d.dealer_cards))
unfolding deal_round
deal_round-IsDistinct shoe d d' distinct e =
    elim (Option-cases (draw_card shoe (used_by d) d.cursor)) [
      | inl u ↦ ground (arith, e, u)
      | inr (p, u) ↦
          let player' = d.player_cards ++ p.card ∷ [] in
          let (fresh, later) = draw_card-fresh shoe (used_by d) d.cursor p u in
          let middle = IsDistinct-add d.player_cards d.dealer_cards p.card fresh distinct in
          elim (Option-cases (draw_card shoe (player' ++ d.dealer_cards) p.next_cursor)) [
            | inl v ↦ ground (arith, e, u, v)
            | inr (q, v) ↦
                let (fresh', later') =
                  draw_card-fresh shoe (player' ++ d.dealer_cards) p.next_cursor q v in
                let dealer' = d.dealer_cards ++ q.card ∷ [] in
                let same : record {
                  player_cards = player';
                  dealer_cards = dealer';
                  cursor = q.next_cursor;
                }
                    ≡ d' =
                  ground (arith, e, u, v) in
                subst
                  (λ x.
                    IsDistinct (used_by x)
                    × (length x.player_cards ≡ suc (length d.player_cards))
                    × (length x.dealer_cards ≡ suc (length d.dealer_cards)))
                  same
                  (
                    IsDistinct-add_end player' d.dealer_cards q.card fresh' middle,
                    omega (arith, length-append d.player_cards (p.card ∷ [])),
                    omega (arith, length-append d.dealer_cards (q.card ∷ [])),
                  )
          ]
    ]

-- The first deal gives two cards to each side, and the four are distinct.
pub deal_initial-IsDistinct :
    (shoe : Shoe) (d : Deal)
    → deal_initial shoe ≡ some d
    → IsDistinct (used_by d) × (length d.player_cards ≡ 2) × (length d.dealer_cards ≡ 2)
unfolding deal_initial
deal_initial-IsDistinct shoe d e = elim (Option-cases (deal_round shoe no_deal)) [
  | inl u ↦ ground (arith, e, u)
  | inr (first, u) ↦
      let (one, p, q) = deal_round-IsDistinct shoe no_deal first (λ c. omega arith) u in
      let (two, r, s) = deal_round-IsDistinct shoe first d one (ground (arith, e, u)) in
      (two, omega arith, omega arith)
]
