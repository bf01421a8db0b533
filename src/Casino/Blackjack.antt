-- ===== src/Casino/Blackjack.antt =====
-- The rules of blackjack (src/lib/server/blackjackEngine.ts). A card is a number below 52. A shoe
-- gives the card at a cursor, and none where the draw does not return.
pub mod Value
pub mod Dealing
pub mod Hand
mod Tests
use sportystake.Base.{
  ℕ, zero, suc, ◌+◌, ◌-◌, ◌%◌, Bool, true, false, ◌&&◌, Option, none, some, List, [], ◌∷◌, ◌++◌,
  ltb, ◌==◌, if◌then◌else◌, Text, codes, elem, length,
}
use sportystake.Casino.Draws.{Platform, uniform_index}

abbrev pub rank_of : ℕ → ℕ
rank_of card = card % 13

abbrev pub is_ace : ℕ → Bool
is_ace card = rank_of card == 0

-- What a card adds to the total at first: an ace 11, a ten or a court card 10.
unfoldable pub card_value : ℕ → ℕ
card_value card =
    let rank = rank_of card in if rank == 0 then 11 else if ltb 8 rank then 10 else rank + 1

-- The first loop: the total and the number of aces.
unfoldable pub count_cards : List ℕ → ℕ × ℕ
unfolding card_value
count_cards [] = (0, 0)
count_cards (c ∷ cs) =
    let (total, aces) = count_cards cs in (card_value c + total, (if is_ace c then 1 else 0) + aces)

-- The second loop: aces come down from 11 to 1 while the total is above 21.
unfoldable pub lower_aces : ℕ → ℕ → ℕ × ℕ
lower_aces total zero = (total, zero)
lower_aces total (suc aces) =
    let rest = lower_aces (total - 10) aces in if ltb 21 total then rest else (total, suc aces)

pub record HandValue : Type 0 where
  pub total : ℕ
  pub soft : Bool

unfoldable pub hand_value : List ℕ → HandValue
hand_value cards =
    let (total, aces) = count_cards cards in
    let (total', aces') = lower_aces total aces in record { total = total'; soft = ltb 0 aces' }

unfoldable pub is_bust : List ℕ → Bool
is_bust cards = ltb 21 (hand_value cards).total

unfoldable pub is_natural_blackjack : List ℕ → Bool
is_natural_blackjack cards = length cards == 2 && (hand_value cards).total == 21

unfoldable pub dealer_should_hit : List ℕ → Bool
dealer_should_hit cards = ltb (hand_value cards).total 17

abbrev pub Shoe : Type 0
Shoe = ℕ → Option ℕ

-- The shoe of a hand: each cursor has a digest of its own.
unfoldable pub shoe_of : Platform → ℕ → Text → Text → ℕ → Shoe
unfolding uniform_index
shoe_of platform fuel server_seed client_seed nonce cursor =
    uniform_index platform fuel server_seed (client_seed ++ codes ":card" ++ platform.show cursor)
      nonce 52 0

pub record Draw : Type 0 where
  pub card : ℕ
  pub next_cursor : ℕ

-- The loop of `drawCard`; `none` where the source throws, or the shoe has no card
unfoldable pub draw_within : ℕ → Shoe → List ℕ → ℕ → Option Draw
draw_within zero shoe used cursor = none
draw_within (suc attempts) shoe used cursor =
    let rest = draw_within attempts shoe used (suc cursor) in
    elim (shoe cursor) [
      | none ↦ none
      | some card ↦
          if elem card used then rest else some (record { card = card; next_cursor = suc cursor })
    ]

abbrev pub max_attempts : ℕ
max_attempts = 1000

unfoldable pub draw_card : Shoe → List ℕ → ℕ → Option Draw
draw_card = draw_within max_attempts

pub record Deal : Type 0 where
  pub player_cards : List ℕ
  pub dealer_cards : List ℕ
  pub cursor : ℕ

abbrev pub used_by : Deal → List ℕ
used_by d = d.player_cards ++ d.dealer_cards

-- One round of the loop of `dealInitial`.
unfoldable pub deal_round : Shoe → Deal → Option Deal
deal_round shoe d = elim (draw_card shoe (used_by d) d.cursor) [
  | none ↦ none
  | some p ↦
      let d' : Deal = record d {
        player_cards = d.player_cards ++ p.card ∷ [];
        cursor = p.next_cursor;
      } in
      elim (draw_card shoe (used_by d') d'.cursor) [
        | none ↦ none
        | some q ↦
            some
              (record d' { dealer_cards = d.dealer_cards ++ q.card ∷ []; cursor = q.next_cursor })
      ]
]

abbrev pub no_deal : Deal
no_deal = record { player_cards = []; dealer_cards = []; cursor = 0 }

unfoldable pub deal_initial : Shoe → Option Deal
unfolding deal_round
deal_initial shoe = elim (deal_round shoe no_deal) [ none ↦ none | some d ↦ deal_round shoe d ]

-- The dealer's hand is played out, or a draw fails, or the fuel is spent.
pub data Played : Type 0 where
  stands : List ℕ → ℕ → Played
  draw_failed : Played
  spent : Played

unfoldable pub play_dealer : ℕ → Shoe → List ℕ → List ℕ → ℕ → Played
play_dealer zero shoe dealer_cards player_cards cursor = spent
play_dealer (suc fuel) shoe dealer_cards player_cards cursor =
    if dealer_should_hit dealer_cards
    then (elim (draw_card shoe (dealer_cards ++ player_cards) cursor) [
      | none ↦ draw_failed
      | some d ↦ play_dealer fuel shoe (dealer_cards ++ d.card ∷ []) player_cards d.next_cursor
    ])
    else stands dealer_cards cursor

pub data HandOutcome : Type 0 where
  player_blackjack push_outcome player_win dealer_win : HandOutcome

pub record Evaluated : Type 0 where
  pub outcome : HandOutcome
  pub multiplier : ℕ

-- Multipliers are in hundredths.
unfoldable pub evaluate_hand : List ℕ → List ℕ → Evaluated
evaluate_hand player_cards dealer_cards =
    let player = (hand_value player_cards).total in
    let dealer = (hand_value dealer_cards).total in
    if is_bust player_cards
    then record { outcome = dealer_win; multiplier = 0 }
    else if is_natural_blackjack player_cards && is_natural_blackjack dealer_cards
    then record { outcome = push_outcome; multiplier = 100 }
    else if is_natural_blackjack player_cards
    then record { outcome = player_blackjack; multiplier = 250 }
    else if is_natural_blackjack dealer_cards
    then record { outcome = dealer_win; multiplier = 0 }
    else if is_bust dealer_cards
    then record { outcome = player_win; multiplier = 200 }
    else if ltb dealer player
    then record { outcome = player_win; multiplier = 200 }
    else if ltb player dealer
    then record { outcome = dealer_win; multiplier = 0 }
    else record { outcome = push_outcome; multiplier = 100 }
