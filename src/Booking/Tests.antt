-- ===== src/Booking/Tests.antt =====
-- Booking codes on small tables, and the theorems on them there.
use sportystake.Base.{
  ℕ, ◌*◌, ◌≡◌, refl, some, none, [], ◌∷◌, Text, codes, inr, to_lower, ◌≢◌, ◌↔◌, ◌≤◌, to_upper, trim,
  trim_start,
}
use sportystake.Booking.{
  PlacedBet, bet_ticket, find_ticket, find_placed, bare, BookableSelection, found, day,
  rounded_odds, normal, pick_code, find_booked, insert_booked, shared_booking, create_booking_code,
  look_up,
}
use sportystake.Booking.Laws.{look_up-create_booking_code, create_booking_code_iff}

abbrev home_win : BookableSelection
home_win = record {
  match_id = codes "1";
  match_label = codes "A vs B";
  market = codes "1X2";
  selection = codes "1";
  odds = 1_850;
  stake = none;
}

two_odds : rounded_odds (1_850 ∷ 2_100 ∷ []) ≡ 3_890
unfolding rounded_odds
two_odds = refl

abbrev draws : ℕ → Text
draws i = codes "7X9K2W"

booked_alone :
    create_booking_code [] draws 0 (home_win ∷ []) none
    ≡ some (codes "7X9K2W", shared_booking [] draws 0 (home_win ∷ []) none ∷ [])
unfolding create_booking_code pick_code find_booked insert_booked
booked_alone = refl

shared_text : normal (codes " st-7x9k2w") ≡ codes "ST-7X9K2W"
unfolding normal to_upper trim trim_start
shared_text = refl

look_up-create_booking_code_example :
    look_up (shared_booking [] draws 0 (home_win ∷ []) none ∷ []) [] [] day (codes " st-7x9k2w")
    ≡ found (record {
      code = codes "7X9K2W";
      total_odds = 1_850;
      item_count = 1;
      selections = home_win ∷ [];
      created_at = 0;
      expires_at = 14 * day;
    })
unfolding rounded_odds
look_up-create_booking_code_example =
    look_up-create_booking_code [] draws 0 (home_win ∷ []) none (codes "7X9K2W")
      (shared_booking [] draws 0 (home_win ∷ []) none ∷ []) [] [] day (codes " st-7x9k2w") tt
      (λ i. refl) booked_alone (inr shared_text)

create_booking_code_iff_example :
    (create_booking_code (shared_booking [] draws 0 [] none ∷ []) draws 0 (home_win ∷ []) none
      ≡ none)
    ↔ ((n : ℕ) → n ≤ 5 → find_booked (shared_booking [] draws 0 [] none ∷ []) (draws n) ≢ none)
create_booking_code_iff_example =
    create_booking_code_iff (shared_booking [] draws 0 [] none ∷ []) draws 0 (home_win ∷ []) none

abbrev bet : PlacedBet
bet = record {
  id = codes "0x1234";
  booking_code = none;
  market_id = codes "1";
  home_team = codes "A";
  away_team = codes "B";
  market_type = codes "1X2";
  selection_label = codes "1";
  odds_x1000 = 1_850;
  amount = 5_000_000;
  placed_at = 0;
}

-- The prefix alone names any bet.
any_bet : look_up [] (bet ∷ []) [] 0 (codes "ST-") ≡ found (bet_ticket 0 (codes "ST-") bet)
unfolding look_up find_ticket find_booked find_placed bare normal to_upper to_lower trim trim_start
any_bet = refl
