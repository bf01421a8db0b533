-- ===== src/Casino/Blackjack/Hand/Race.antt =====
-- Requests on one hand that overlap (src/app/api/casino/blackjack/action/route.ts): a request reads
-- the row, claims its sequence number on the row as it is then, and acts on the cards that it read.
use sportystake.Base.{
  ℕ, ◌+◌, ◌<◌, ◌≡◌, ◌≢◌, refl, Bool, true, false, List, [], ◌∷◌, ◌++◌, ◌&&◌, All, All-imp, length,
  arith, ◌==◌,
}
use sportystake.Casino.Blackjack.{Shoe}
use sportystake.Casino.Blackjack.Hand.{
  House, Hand, Action, Response, replayed, conflict, failed, next_turn, finished, is_player_turn,
  claim, act_claimed,
}

-- What an action writes: the updates name the fields, and leave the others as the row has them.
abbrev pub written : Hand → Response × Hand → Hand
written row (next_turn, h) = record row {
  player_cards = h.player_cards;
  done = h.done;
  cursor = h.cursor;
}
written row (finished, h) = record row {
  dealer_cards = h.dealer_cards;
  status = h.status;
  bet_status = h.bet_status;
  payout = h.payout;
  multiplier = h.multiplier;
  settled_player_cards = h.settled_player_cards;
}
written row (replayed, h) = row
written row (conflict, h) = row
written row (failed, h) = row

-- A request under way, with the row as it read it.
pub record Flight : Type 0 where
  pub action : Action
  pub action_seq : ℕ
  pub snapshot : Hand
  pub has_claimed : Bool

pub record Race : Type 0 where
  pub row : Hand
  pub flights : List Flight
  pub claims : List ℕ

abbrev claimed : Flight → Flight
claimed f = record f { snapshot = claim f.snapshot; has_claimed = true }

-- The next step of any request.
pub data Step (house : House) (shoe : Shoe) (r : Race) : Race → Type 0 where
  reads :
      (action : Action) (action_seq : ℕ)
      → is_player_turn r.row.status ≡ true
      → Step house shoe r (record r {
        flights =
            record {
              action = action;
              action_seq = action_seq;
              snapshot = r.row;
              has_claimed = false;
            }
            ∷ r.flights;
      })
  claims :
      (before : List Flight) (f : Flight) (after : List Flight)
      → r.flights ≡ before ++ (f ∷ after)
      → f.has_claimed ≡ false
      → r.row.action_seq ≡ f.action_seq
      → is_player_turn r.row.status ≡ true
      → Step house shoe r (record {
        row = claim r.row;
        flights = before ++ (claimed f ∷ after);
        claims = f.action_seq ∷ r.claims;
      })
  conflicts :
      (before : List Flight) (f : Flight) (after : List Flight)
      → r.flights ≡ before ++ (f ∷ after)
      → f.has_claimed ≡ false
      → (r.row.action_seq == f.action_seq) && is_player_turn r.row.status ≡ false
      → Step house shoe r (record r { flights = before ++ after })
  acts :
      (before : List Flight) (f : Flight) (after : List Flight)
      → r.flights ≡ before ++ (f ∷ after)
      → f.has_claimed ≡ true
      → Step house shoe r (record r {
        row = written r.row (act_claimed house shoe f.snapshot f.action);
        flights = before ++ after;
      })

pub data Reach (house : House) (shoe : Shoe) (start : Hand) : Race → Type 0 where
  begin : Reach house shoe start (record { row = start; flights = []; claims = [] })
  next : {r s : Race} → Reach house shoe start r → Step house shoe r s → Reach house shoe start s

-- No number stands twice.
abbrev pub IsOnceEach : List ℕ → Type 0
IsOnceEach [] = Unit
IsOnceEach (n ∷ ns) = All (λ m. m ≢ n) ns × IsOnceEach ns

abbrev IsCounted : Hand → Race → Type 0
IsCounted start r =
    (r.row.action_seq ≡ start.action_seq + length r.claims)
    × All (λ n. n < r.row.action_seq) r.claims
    × IsOnceEach r.claims

written-action_seq :
    (row : Hand) (out : Response × Hand) → (written row out).action_seq ≡ row.action_seq
written-action_seq row (next_turn, h) = refl
written-action_seq row (finished, h) = refl
written-action_seq row (replayed, h) = refl
written-action_seq row (conflict, h) = refl
written-action_seq row (failed, h) = refl

Step-IsCounted :
    {house : House} {shoe : Shoe} (start : Hand) {r s : Race}
    → Step house shoe r s
    → IsCounted start r
    → IsCounted start s
Step-IsCounted start (reads action seq turn) h = h
Step-IsCounted start {r} (claims before f after split fresh same turn) (count, below, distinct) = (
  omega (arith, count),
  (
    (omega (arith, same)),
    All-imp (λ (n : ℕ) (less : n < r.row.action_seq). omega (arith, less)) r.claims below,
  ),
  (
    All-imp {Q = λ n. n ≢ f.action_seq}
        (λ (n : ℕ) (less : n < r.row.action_seq) e. omega (arith, less, same, e)) r.claims below,
    distinct,
  ),
)
Step-IsCounted start (conflicts before f after split fresh changed) h = h
Step-IsCounted {house} {shoe} start {r} (acts before f after split done) (count, below, distinct) =
    let kept = written-action_seq r.row (act_claimed house shoe f.snapshot f.action) in
    (omega (arith, kept, count), rw kept below, distinct)

Reach-IsCounted :
    {house : House} {shoe : Shoe} (start : Hand) {r : Race}
    → Reach house shoe start r
    → IsCounted start r
Reach-IsCounted start begin = (omega arith, tt, tt)
Reach-IsCounted start (next reach st) = Step-IsCounted start st (Reach-IsCounted start reach)

-- However the requests on a hand overlap, no two claim the same sequence number, and the number of
-- the row has grown by one for each claim.
pub Reach-IsOnceEach :
    {house : House} {shoe : Shoe} (start : Hand) {r : Race}
    → Reach house shoe start r
    → IsOnceEach r.claims × (r.row.action_seq ≡ start.action_seq + length r.claims)
Reach-IsOnceEach start reach =
    let (count, below, distinct) = Reach-IsCounted start reach in (distinct, count)
