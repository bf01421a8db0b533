-- ===== src/Casino/Blackjack/Hand.antt =====
-- A hand from the deal to the payout: `finishBlackjackHand` (src/lib/server/blackjackResolution.ts)
-- and the handler of src/app/api/casino/blackjack/action/route.ts, behind the checks of who calls.
-- The house's contract is a parameter: what it can pay, and what a settlement comes to. The response
-- bodies, the transaction hash and the time stamps are left out.
pub mod Gate
pub mod Laws
pub mod Runs
pub mod Race
use sportystake.Base.{
  ℕ, zero, suc, ◌+◌, ◌*◌, ◌/◌, Bool, true, false, ◌&&◌, not, Option, none, some, List, [], ◌∷◌,
  ◌++◌, ltb, leb, ◌==◌, if◌then◌else◌,
}
use sportystake.Casino.Blackjack.{
  Deal, deal_initial, is_natural_blackjack, Shoe, draw_card, Played, stands, draw_failed, spent,
  play_dealer, HandOutcome, player_blackjack, dealer_win, Evaluated, evaluate_hand, is_bust,
}

-- `settleCasinoBetOnchain`: not configured, paid an amount, or an error.
pub data Settlement : Type 0 where
  not_configured already_settled settle_failed : Settlement
  paid : ℕ → Settlement

pub record House : Type 0 where
  pub available_capacity : ℕ
  pub settle : ℕ → ℕ → Settlement

pub data HandStatus : Type 0 where
  player_turn resolved : HandStatus

pub data BetState : Type 0 where
  bet_pending bet_won bet_lost bet_cancelled bet_refunded : BetState

-- The rows of `BlackjackHand` and `CasinoBet` that belong together.
pub record Hand : Type 0 where
  pub player_cards : List ℕ
  pub done : Bool
  pub dealer_cards : List ℕ
  pub cursor : ℕ
  pub action_seq : ℕ
  pub status : HandStatus
  pub bet_status : BetState
  pub stake : ℕ
  pub payout : ℕ
  pub multiplier : ℕ
  pub settled_player_cards : List ℕ

-- `fullBonusDeficit > availableCapacity`
abbrev pub is_gated : ℕ → ℕ → HandOutcome → Bool
is_gated stake capacity player_blackjack = ltb capacity (stake * 3 / 2)
is_gated stake capacity _ = false

-- The multiplier behind the gate, in hundredths.
unfoldable pub gated_multiplier : ℕ → ℕ → Evaluated → ℕ
gated_multiplier stake capacity e = if is_gated stake capacity e.outcome then 200 else e.multiplier

unfoldable pub payout_for : ℕ → ℕ → ℕ
payout_for stake multiplier = if multiplier == 0 then 0 else stake * multiplier / 100

-- What is booked after the settlement; `none` where the source throws again
abbrev pub final_payout : ℕ → Settlement → Option ℕ
final_payout payout not_configured = some payout
final_payout payout (paid actual) = some actual
final_payout payout already_settled = none
final_payout payout settle_failed = some payout

-- The update of both rows; the cards of the player go to the bet's metadata only.
unfoldable pub book : Hand → List ℕ → List ℕ → ℕ → ℕ → Hand
book h player_cards dealer_cards multiplier payout = record h {
  dealer_cards = dealer_cards;
  status = resolved;
  bet_status = if ltb 0 payout then bet_won else bet_lost;
  payout = payout;
  multiplier = multiplier;
  settled_player_cards = player_cards;
}

-- From the evaluated hand on.
unfoldable pub settle_hand : House → Hand → List ℕ → List ℕ → Evaluated → Option Hand
settle_hand house h player_cards dealer_cards e =
    let multiplier = gated_multiplier h.stake house.available_capacity e in
    let payout = payout_for h.stake multiplier in
    elim (final_payout payout (house.settle (multiplier * 100) payout)) [
      | none ↦ none
      | some final ↦ some (book h player_cards dealer_cards multiplier final)
    ]

abbrev pub dealer_fuel : ℕ
dealer_fuel = 18

abbrev pub bust_result : Evaluated
bust_result = record { outcome = dealer_win; multiplier = 0 }

-- By how the dealer's play ends.
abbrev pub settle_played : House → Hand → List ℕ → Played → Option Hand
settle_played house h player_cards (stands dealer_cards end) =
    settle_hand house h player_cards dealer_cards (evaluate_hand player_cards dealer_cards)
settle_played house h player_cards draw_failed = none
settle_played house h player_cards spent = none

-- `none` where the source throws. The hand is the row as it is then.
unfoldable pub finish_blackjack_hand : House → Shoe → Hand → List ℕ → ℕ → Bool → Option Hand
finish_blackjack_hand house shoe h player_cards cursor player_busted =
    if player_busted
    then settle_hand house h player_cards h.dealer_cards bust_result
    else settle_played house h player_cards
        (play_dealer dealer_fuel shoe h.dealer_cards player_cards cursor)

pub data Action : Type 0 where
  hit stand : Action

-- The answers of the handler: the result of an earlier action, a conflict, an error behind the
-- claim, the next turn, and the end of the hand.
pub data Response : Type 0 where
  replayed conflict failed next_turn finished : Response

abbrev pub is_player_turn : HandStatus → Bool
is_player_turn player_turn = true
is_player_turn resolved = false

-- The claim: `updateMany` with the expected sequence number.
abbrev pub claim : Hand → Hand
claim h = record h { action_seq = suc h.action_seq }

abbrev pub or_failed : Hand → Option Hand → Response × Hand
or_failed h none = (failed, h)
or_failed h (some h') = (finished, h')

-- Behind the claim, by the action.
unfoldable pub hit_with : House → Shoe → Hand → ℕ → ℕ → Response × Hand
hit_with house shoe h card next_cursor =
    let player_cards = h.player_cards ++ card ∷ [] in
    if is_bust player_cards
    then or_failed h (finish_blackjack_hand house shoe h player_cards next_cursor true)
    else (next_turn, record h { player_cards = player_cards; done = false; cursor = next_cursor })

unfoldable pub act_claimed : House → Shoe → Hand → Action → Response × Hand
act_claimed house shoe h hit = elim (draw_card shoe (h.player_cards ++ h.dealer_cards) h.cursor) [
  | none ↦ (failed, h)
  | some d ↦ hit_with house shoe h d.card d.next_cursor
]
act_claimed house shoe h stand =
    or_failed h (finish_blackjack_hand house shoe h h.player_cards h.cursor false)

-- One request, with no other in between.
unfoldable pub act : House → Shoe → Action → ℕ → Hand → Response × Hand
act house shoe action action_seq h =
    if not (is_player_turn h.status)
    then (replayed, h)
    else if h.action_seq == action_seq
    then act_claimed house shoe (claim h) action
    else (conflict, h)

-- The handler of src/app/api/casino/blackjack/deal/route.ts, behind the checks of the transaction
-- that paid the stake: the rows that it creates, and the finish of a natural blackjack.
abbrev pub new_hand : ℕ → Deal → Hand
new_hand stake d = record {
  player_cards = d.player_cards;
  done = false;
  dealer_cards = d.dealer_cards;
  cursor = d.cursor;
  action_seq = 0;
  status = player_turn;
  bet_status = bet_pending;
  stake = stake;
  payout = 0;
  multiplier = 0;
  settled_player_cards = [];
}

-- `none` where a draw throws, before there is a row
unfoldable pub deal_hand : House → Shoe → ℕ → Option (Response × Hand)
deal_hand house shoe stake = elim (deal_initial shoe) [
  | none ↦ none
  | some d ↦
      let h = new_hand stake d in
      some (
        if is_natural_blackjack d.player_cards
        then or_failed h (finish_blackjack_hand house shoe h d.player_cards d.cursor false)
        else (next_turn, h))
]
