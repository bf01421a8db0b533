-- ===== src/Casino/Blackjack/Value.antt =====
-- The value of a hand, and the comparison of two hands.
use sportystake.Base.{
  ℕ, zero, suc, ◌+◌, ◌-◌, ◌*◌, ◌≤◌, ◌<◌, ◌≡◌, refl, ◌↔◌, ◌⊎◌, inl, inr, true, List, [], ◌∷◌, arith,
  ltb, if◌then◌else◌, sum_by, Bool-cases,
}
use sportystake.Casino.Blackjack.{
  rank_of, is_ace, count_cards, lower_aces, hand_value, is_bust, is_natural_blackjack,
  evaluate_hand,
}

-- The value of a card with every ace as one, and the number of aces.
abbrev pub hard_value : ℕ → ℕ
hard_value card = let rank = rank_of card in if ltb 8 rank then 10 else rank + 1

abbrev pub hard_total : List ℕ → ℕ
hard_total = sum_by hard_value

abbrev pub aces : List ℕ → ℕ
aces = sum_by λ c. if is_ace c then 1 else 0

count_cards-eq :
    (cards : List ℕ)
    → ((count_cards cards).0 ≡ hard_total cards + 10 * aces cards)
      × ((count_cards cards).1 ≡ aces cards)
unfolding count_cards
count_cards-eq [] = (refl, refl)
count_cards-eq (c ∷ cs) = let (t, a) = count_cards-eq cs in (ground arith, ground arith)

lower_aces-best :
    (h n : ℕ)
    → let (total, left) = lower_aces (h + 10 * n) n in
      (total ≡ h + 10 * left)
      × (left ≤ n)
      × ((left ≡ 0) ⊎ (total ≤ 21))
      × ((left ≡ n) ⊎ (21 < total + 10))
unfolding lower_aces
lower_aces-best h zero = (omega arith, omega arith, inl refl, inl refl)
lower_aces-best h (suc n) =
    let down : h + 10 * suc n - 10 ≡ h + 10 * n = omega arith in
    let (same, fewer, low, most) = lower_aces-best h n in
    elim (Bool-cases (ltb 21 (h + 10 * suc n))) [
      | inl e ↦ rw (e, down) (same, omega arith, low, ground arith)
      | inr e ↦ rw e (refl, omega arith, inr (ground arith), inl refl)
    ]

-- A hand counts some of its aces as 11 and the others as 1: as many as 11 as keep it at 21 or below.
-- It is soft exactly if one counts as 11.
pub hand_value_lem :
    (cards : List ℕ)
    → (high : ℕ) × (high ≤ aces cards)
      × ((hand_value cards).total ≡ hard_total cards + 10 * high)
      × (((hand_value cards).soft ≡ true) ↔ (0 < high))
      × ((high ≡ 0) ⊎ ((hand_value cards).total ≤ 21))
      × ((high ≡ aces cards) ⊎ (21 < (hand_value cards).total + 10))
unfolding hand_value
hand_value_lem cards =
    let (total, number) = count_cards-eq cards in
    let (same, fewer, low, most) = lower_aces-best (hard_total cards) (aces cards) in
    rw (total, number)
      (
        (lower_aces (hard_total cards + 10 * aces cards) (aces cards)).1,
        fewer,
        same,
        ground arith,
        low,
        most,
      )

-- The order of finished hands: a bust hand, the totals, a natural blackjack.
abbrev pub strength : List ℕ → ℕ
strength cards =
    if is_bust cards
    then 0
    else if is_natural_blackjack cards
    then 23
    else suc (hand_value cards).total

-- A player who is bust loses. Otherwise the stronger hand wins, with half as much again for a natural
-- blackjack, and equal hands push.
pub evaluate_hand_lem :
    (player dealer : List ℕ)
    → (evaluate_hand player dealer).multiplier ≡ (
        if is_bust player
        then 0
        else if ltb (strength dealer) (strength player)
        then (if is_natural_blackjack player then 250 else 200)
        else if ltb (strength player) (strength dealer)
        then 0
        else 100)
unfolding evaluate_hand is_bust is_natural_blackjack
evaluate_hand_lem player dealer = ground arith
