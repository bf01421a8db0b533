-- ===== src/Booking.antt =====
-- Booking codes: `createBookingCodeForSelections` (src/lib/server/bookingCode.ts), the handler of
-- src/app/api/betslip/book/route.ts and that of src/app/api/betslip/book/[code]/route.ts. The codes
-- that nanoid draws are a parameter. Odds are thousandths and stakes are millionths, taken exactly.
pub mod Laws
mod Tests
use sportystake.Base.{
  ℕ, zero, suc, ◌+◌, ◌*◌, ◌/◌, ◌^◌, Bool, false, ◌||◌, Option, none, some, List, [], ◌∷◌, ◌++◌, map,
  length, all, ltb, ◌==◌, if◌then◌else◌, Text, codes, text_eq, trim, to_upper, to_lower,
  strip_prefix, starts,
}

pub record BookableSelection : Type 0 where
  pub match_id : Text
  pub match_label : Text
  pub market : Text
  pub selection : Text
  pub odds : ℕ
  pub stake : Option ℕ

pub record BookedBet : Type 0 where
  pub code : Text
  pub selections : List BookableSelection
  pub total_odds : ℕ
  pub item_count : ℕ
  pub created_by_id : Option Text
  pub created_at : ℕ
  pub expires_at : ℕ

abbrev pub day : ℕ
day = 24 * 60 * 60 * 1_000

-- `findUnique` by the code
unfoldable pub find_booked : List BookedBet → Text → Option BookedBet
find_booked [] code = none
find_booked (b ∷ rows) code =
    let rest = find_booked rows code in if text_eq b.code code then some b else rest

abbrev unless_taken : Text → Text → Option BookedBet → Text
unless_taken code again none = code
unless_taken code again (some existing) = again

-- The loop, with the tries left and the number of the next code.
unfoldable pub pick_code : ℕ → List BookedBet → (ℕ → Text) → ℕ → Text
pick_code zero rows generate_code i = generate_code i
pick_code (suc left) rows generate_code i =
    unless_taken (generate_code i) (pick_code left rows generate_code (suc i))
      (find_booked rows (generate_code i))

abbrev appended : List BookedBet → BookedBet → Option BookedBet → Option (List BookedBet)
appended rows b none = some (rows ++ b ∷ [])
appended rows b (some existing) = none

-- `create`, which throws on a code that is there
unfoldable pub insert_booked : List BookedBet → BookedBet → Option (List BookedBet)
insert_booked rows b = appended rows b (find_booked rows b.code)

-- The product of the odds, in thousandths to the power of their number.
abbrev pub product : List ℕ → ℕ
product [] = 1
product (o ∷ os) = o * product os

-- `Math.round(x * 100) / 100`, in thousandths
unfoldable pub rounded_odds : List ℕ → ℕ
rounded_odds os = let one = 1_000 ^ length os in (2 * 100 * product os + one) / (2 * one) * 10

abbrev pub odds_or_one : ℕ → ℕ
odds_or_one odds = if ltb 0 odds then odds else 1_000

abbrev pub max_odds : ℕ → ℕ → ℕ
max_odds a b = if ltb a b then b else a

abbrev pub shared_booking :
    List BookedBet → (ℕ → Text) → ℕ → List BookableSelection → Option Text → BookedBet
shared_booking rows generate_code now selections created_by_id = record {
  code = pick_code 5 rows generate_code 0;
  selections = selections;
  total_odds = max_odds 1_000 (rounded_odds (map (λ s. odds_or_one s.odds) selections));
  item_count = length selections;
  created_by_id = created_by_id;
  created_at = now;
  expires_at = now + 14 * day;
}

abbrev pub with_code : Text → Option (List BookedBet) → Option (Text × List BookedBet)
with_code code none = none
with_code code (some rows) = some (code, rows)

-- The code with the rows; `none` where the insertion throws.
unfoldable pub create_booking_code :
    List BookedBet
    → (ℕ → Text)
    → ℕ
    → List BookableSelection
    → Option Text
    → Option (Text × List BookedBet)
create_booking_code rows generate_code now selections created_by_id =
    let b = shared_booking rows generate_code now selections created_by_id in
    with_code b.code (insert_booked rows b)

pub data BookResponse : Type 0 where
  invalid_selections insert_failed : BookResponse
  booked : BookedBet → List BookedBet → BookResponse

-- What the schema of the body asks of the selections.
abbrev pub is_bookable : List BookableSelection → Bool
is_bookable [] = false
is_bookable (s ∷ ss) = all (λ t. ltb 0 t.odds) (s ∷ ss)

unfoldable pub post_book :
    List BookedBet → (ℕ → Text) → ℕ → List BookableSelection → Option Text → BookResponse
post_book rows generate_code now selections user_id =
    let b : BookedBet = record {
      code = pick_code 5 rows generate_code 0;
      selections = selections;
      total_odds = rounded_odds (map (λ s. s.odds) selections);
      item_count = length selections;
      created_by_id = user_id;
      created_at = now;
      expires_at = now + 7 * day;
    } in
    if is_bookable selections
    then elim (insert_booked rows b) [ none ↦ insert_failed | some rows' ↦ booked b rows' ]
    else invalid_selections

-- The columns of a bet, of a leg and of a parlay that the lookup reads.
pub record PlacedBet : Type 0 where
  pub id : Text
  pub booking_code : Option Text
  pub market_id : Text
  pub home_team : Text
  pub away_team : Text
  pub market_type : Text
  pub selection_label : Text
  pub odds_x1000 : ℕ
  pub amount : ℕ
  pub placed_at : ℕ

pub record Leg : Type 0 where
  pub market_id : Text
  pub home_team : Text
  pub away_team : Text
  pub market_type : Option Text
  pub selection_label : Text
  pub odds_x1000 : ℕ

pub record PlacedParlay : Type 0 where
  pub id : Text
  pub booking_code : Option Text
  pub combined_odds_x1000 : ℕ
  pub stake : ℕ
  pub placed_at : ℕ
  pub legs : List Leg

pub record Ticket : Type 0 where
  pub code : Text
  pub total_odds : ℕ
  pub item_count : ℕ
  pub selections : List BookableSelection
  pub created_at : ℕ
  pub expires_at : ℕ

pub data Lookup : Type 0 where
  not_found expired : Lookup
  found : Ticket → Lookup

-- `code.trim().toUpperCase()`
unfoldable pub normal : Text → Text
normal code = to_upper (trim code)

-- `code.replace(/^ST-/, "")`
unfoldable pub bare : Text → Text
bare code = elim (strip_prefix (codes "ST-") code) [ none ↦ code | some rest ↦ rest ]

abbrev or_bare : List BookedBet → Text → Option BookedBet → Option BookedBet
or_bare rows code none = if starts (codes "ST-") code then find_booked rows (bare code) else none
or_bare rows code (some b) = some b

-- The first lookup, and the second without the prefix.
unfoldable pub find_ticket : List BookedBet → Text → Option BookedBet
find_ticket rows code = or_bare rows code (find_booked rows code)

abbrev pub is_code : Option Text → Text → Bool
is_code none code = false
is_code (some c) code = text_eq c code

-- The `OR` of both queries.
abbrev pub is_named : Text → Option Text → Text → Bool
is_named id booking_code code =
    is_code booking_code code || starts (codes "0x" ++ to_lower (bare code)) id

unfoldable pub find_placed : List PlacedBet → Text → Option PlacedBet
find_placed [] code = none
find_placed (b ∷ bets) code =
    let rest = find_placed bets code in if is_named b.id b.booking_code code then some b else rest

unfoldable pub find_parlay : List PlacedParlay → Text → Option PlacedParlay
find_parlay [] code = none
find_parlay (p ∷ parlays) code =
    let rest = find_parlay parlays code in
    if is_named p.id p.booking_code code then some p else rest

abbrev versus : Text → Text → Text
versus home away = home ++ codes " vs " ++ away

unfoldable pub bet_ticket : ℕ → Text → PlacedBet → Ticket
bet_ticket now code b = record {
  code = code;
  total_odds = b.odds_x1000;
  item_count = 1;
  selections =
      record {
        match_id = b.market_id;
        match_label = versus b.home_team b.away_team;
        market = b.market_type;
        selection = b.selection_label;
        odds = b.odds_x1000;
        stake = some b.amount;
      }
      ∷ [];
  created_at = b.placed_at;
  expires_at = now + 7 * day;
}

abbrev or_1x2 : Option Text → Text
or_1x2 none = codes "1X2"
or_1x2 (some t) = t

unfoldable pub leg_selection : ℕ → Leg → BookableSelection
leg_selection stake l = record {
  match_id = l.market_id;
  match_label = versus l.home_team l.away_team;
  market = or_1x2 l.market_type;
  selection = l.selection_label;
  odds = l.odds_x1000;
  stake = some stake;
}

unfoldable pub parlay_ticket : ℕ → Text → PlacedParlay → Ticket
parlay_ticket now code p = record {
  code = code;
  total_odds = p.combined_odds_x1000;
  item_count = length p.legs;
  selections = map (leg_selection p.stake) p.legs;
  created_at = p.placed_at;
  expires_at = now + 7 * day;
}

abbrev from_parlay : ℕ → Text → Option PlacedParlay → Lookup
from_parlay now code none = not_found
from_parlay now code (some p) =
    if ltb 0 (length p.legs) then found (parlay_ticket now code p) else not_found

abbrev booked_ticket : BookedBet → Ticket
booked_ticket b = record {
  code = b.code;
  total_odds = b.total_odds;
  item_count = b.item_count;
  selections = b.selections;
  created_at = b.created_at;
  expires_at = b.expires_at;
}

abbrev pub from_booked : ℕ → BookedBet → Lookup
from_booked now b = if ltb b.expires_at now then expired else found (booked_ticket b)

abbrev or_parlay : ℕ → Text → List PlacedParlay → Option PlacedBet → Lookup
or_parlay now code parlays none = from_parlay now code (find_parlay parlays code)
or_parlay now code parlays (some b) = found (bet_ticket now code b)

abbrev or_placed : List PlacedBet → List PlacedParlay → ℕ → Text → Option BookedBet → Lookup
or_placed bets parlays now code none = or_parlay now code parlays (find_placed bets code)
or_placed bets parlays now code (some b) = from_booked now b

unfoldable pub look_up : List BookedBet → List PlacedBet → List PlacedParlay → ℕ → Text → Lookup
look_up rows bets parlays now text =
    or_placed bets parlays now (normal text) (find_ticket rows (normal text))
