-- ===== src/Casino/Blackjack/Tests.antt =====
-- Hands of blackjack, and the theorems on them there.
use sportystake.Base.{
  ℕ, suc, ◌+◌, ◌*◌, ◌/◌, ◌≤◌, ◌<◌, ◌≡◌, ◌≢◌, refl, ◌↔◌, ◌⊎◌, true, false, not, some, List, [], ◌∷◌,
  arith, ltb, if◌then◌else◌,
}
use sportystake.Casino.Blackjack.{
  Shoe, count_cards, lower_aces, hand_value, is_bust, is_natural_blackjack, evaluate_hand,
  player_blackjack, play_dealer, stands, spent, Deal, deal_initial, draw_card, draw_within,
  dealer_should_hit,
}
use sportystake.Casino.Blackjack.Value.{strength, evaluate_hand_lem}
use sportystake.Casino.Blackjack.Dealing.{IsDistinct, play_dealer-ne-spent}
use sportystake.Casino.Blackjack.Hand.{
  claim, hit_with, House, paid, Hand, player_turn, resolved, hit, stand, replayed, conflict,
  finished, gated_multiplier, payout_for, act_claimed, finish_blackjack_hand, settle_hand, book,
  act, is_player_turn, new_hand, Action,
}
use sportystake.Casino.Blackjack.Hand.Gate.{gated_multiplier_lem}
use sportystake.Casino.Blackjack.Hand.Laws.{IsValid, is_refused, is_finished, act_lem}
use sportystake.Casino.Blackjack.Hand.Race.{
  Flight, Race, Reach, begin, next, reads, claims, IsOnceEach, Reach-IsOnceEach, written,
}
use sportystake.Casino.Blackjack.Hand.Runs.{run, finishes, run-finishes}

-- Every card in order.
abbrev ordered : Shoe
ordered = λ cursor. some cursor

abbrev house : House
house = record { available_capacity = 1_000; settle = λ result payout. paid payout }

abbrev deal : Deal
deal = record { player_cards = 0 ∷ 2 ∷ []; dealer_cards = 1 ∷ 3 ∷ []; cursor = 4 }

abbrev hand : Hand
hand = new_hand 100 deal

soft_fourteen : hand_value (0 ∷ 2 ∷ []) ≡ record { total = 14; soft = true }
unfolding hand_value lower_aces count_cards
soft_fourteen = refl

first_deal : deal_initial ordered ≡ some deal
unfolding deal_initial draw_card draw_within
first_deal = refl

dealer_plays : play_dealer 18 ordered (1 ∷ 3 ∷ []) (0 ∷ 2 ∷ []) 4 ≡ stands (1 ∷ 3 ∷ 4 ∷ 5 ∷ []) 6
unfolding play_dealer dealer_should_hit hand_value lower_aces count_cards draw_card draw_within
dealer_plays = refl

stand_twice : (run house ordered ((stand, 0) ∷ (stand, 1) ∷ []) hand).0 ≡ finished ∷ replayed ∷ []
unfolding act act_claimed finish_blackjack_hand play_dealer dealer_should_hit hand_value lower_aces
    count_cards draw_card draw_within settle_hand book
stand_twice = refl

old_number : (act house ordered hit 3 hand).0 ≡ conflict
unfolding act
old_number = refl

evaluate_hand_lem_example :
    let player : List ℕ = 0 ∷ 12 ∷ [] in
    let dealer : List ℕ = 9 ∷ 6 ∷ 3 ∷ [] in
    (evaluate_hand player dealer).multiplier ≡ (
      if is_bust player
      then 0
      else if ltb (strength dealer) (strength player)
      then (if is_natural_blackjack player then 250 else 200)
      else if ltb (strength player) (strength dealer)
      then 0
      else 100)
evaluate_hand_lem_example = evaluate_hand_lem (0 ∷ 12 ∷ []) (9 ∷ 6 ∷ 3 ∷ [])

four_cards : IsDistinct (0 ∷ 2 ∷ 1 ∷ 3 ∷ [])
four_cards c = ground arith

dealer_first : IsDistinct (1 ∷ 3 ∷ 0 ∷ 2 ∷ [])
dealer_first c = ground arith

play_dealer-ne-spent_example : play_dealer 18 ordered (1 ∷ 3 ∷ []) (0 ∷ 2 ∷ []) 4 ≢ spent
play_dealer-ne-spent_example =
    play_dealer-ne-spent 18 ordered (1 ∷ 3 ∷ []) (0 ∷ 2 ∷ []) 4 (omega arith)

gated_multiplier_lem_example :
    let e = evaluate_hand (0 ∷ 12 ∷ []) (9 ∷ 6 ∷ 3 ∷ []) in
    let m = gated_multiplier 1_000 1_200 e in
    ((m ≡ e.multiplier) ⊎ (e.outcome ≡ player_blackjack) × (m ≡ 200) × (1_200 < 1_000 * 3 / 2))
    × ((0 < m) ↔ (0 < e.multiplier))
    × ((m ≤ 200) ⊎ (payout_for 1_000 m ≤ 1_000 + 1_200))
gated_multiplier_lem_example = gated_multiplier_lem 1_000 1_200 (0 ∷ 12 ∷ []) (9 ∷ 6 ∷ 3 ∷ [])

hand-IsValid : IsValid hand
unfolding is_bust hand_value lower_aces count_cards
hand-IsValid = record { distinct = four_cards; in_play = refl }

act_lem_example :
    let (r, h') = act house ordered hit 0 hand in
    IsValid h'
    × ((is_refused r ≡ true) × (h' ≡ hand) × ((hand.status ≡ resolved) ⊎ (hand.action_seq ≢ 0))
        ⊎ (is_refused r ≡ false)
          × (hand.status ≡ player_turn)
          × (hand.action_seq ≡ 0)
          × (h'.action_seq ≡ 1)
          × (is_finished r ≡ not (is_player_turn h'.status)))
act_lem_example = act_lem house ordered hit 0 hand hand-IsValid

run-finishes_example :
    let requests : List (Action × ℕ) = (hit, 0) ∷ (stand, 1) ∷ (stand, 2) ∷ [] in
    IsValid (run house ordered requests hand).1 × (finishes (run house ordered requests hand).0 ≤ 1)
run-finishes_example =
    run-finishes house ordered ((hit, 0) ∷ (stand, 1) ∷ (stand, 2) ∷ []) hand hand-IsValid

-- Two requests to hit that both claim before either one acts.
abbrev flight : ℕ → Flight
flight action_seq = record {
  action = hit;
  action_seq = action_seq;
  snapshot = record hand { action_seq = suc action_seq };
  has_claimed = true;
}

abbrev overlapping : Race
overlapping = record {
  row = claim (claim hand);
  flights = flight 1 ∷ flight 0 ∷ [];
  claims = 1 ∷ 0 ∷ [];
}

abbrev overlap : Reach house ordered hand overlapping
overlap =
    let one = next begin (reads hit 0 refl) in
    let two = next one (claims [] _ [] refl refl refl refl) in
    let three = next two (reads hit 1 refl) in next three (claims [] _ _ refl refl refl refl)

Reach-IsOnceEach_example : IsOnceEach (1 ∷ 0 ∷ []) × (2 ≡ hand.action_seq + 2)
Reach-IsOnceEach_example = Reach-IsOnceEach hand overlap

-- Both draw the same card, and the hand has three cards after two hits.
same_card :
    let first = written overlapping.row (act_claimed house ordered (flight 0).snapshot hit) in
    let second = written first (act_claimed house ordered (flight 1).snapshot hit) in
    second.player_cards ≡ 0 ∷ 2 ∷ 4 ∷ []
unfolding act_claimed draw_card draw_within hit_with is_bust hand_value lower_aces count_cards
same_card = refl
