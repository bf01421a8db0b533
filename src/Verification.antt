-- ===== src/Verification.antt =====
-- What the server makes of a transaction that a client reports: src/lib/server/betVerification.ts,
-- liquidityVerification.ts, casinoVerification.ts and crashVerification.ts. The receipt and the
-- decoder of its logs come from the chain client and are parameters; the text of a revert is left
-- out. `none` for a receipt is a lookup that throws.
pub mod Liquidity
pub mod CasinoHouse
pub mod CrashGame
pub mod Laws
pub mod Accepted
mod Tests
use sportystake.Base.{
  ◌≡◌, refl, ◌⊎◌, inl, inr, ℕ, Bool, true, false, not, Option, none, some, List, [], ◌∷◌,
  if◌then◌else◌, Text, codes, text_eq, to_lower,
}

pub data ApiError : Type 0 where
  no_receipt transaction_failed wrong_contract event_not_found sender_mismatch : ApiError

pub data Checked {ℓ} (A : Type ℓ) : Type ℓ where
  ok : A → Checked A
  refused : ApiError → Checked A

pub Checked-cases {ℓ} :
    {A : Type ℓ} (c : Checked A) → ((e : ApiError) × (c ≡ refused e)) ⊎ ((a : A) × (c ≡ ok a))
Checked-cases (refused e) = inl (e, refl)
Checked-cases (ok a) = inr (a, refl)

infixl 5 ◌>>=◌
abbrev pub ◌>>=◌ {ℓ κ} : {A : Type ℓ} {B : Type κ} → Checked A → (A → Checked B) → Checked B
ok a >>= f = f a
refused e >>= f = refused e

pub record Receipt (Log : Type 0) : Type 0 where
  pub success : Bool
  pub sent_to : Option Text
  pub logs : List Log

-- A log as `decodeEventLog` gives it, by the name of the event.
pub record Decoded (Args : Type 0) : Type 0 where
  pub event_name : Text
  pub args : Args

-- Addresses are compared without regard to case.
abbrev pub same_address : Text → Text → Bool
same_address a b = text_eq (to_lower a) (to_lower b)

abbrev pub is_sent_to : Text → Option Text → Bool
is_sent_to contract none = false
is_sent_to contract (some a) = same_address a contract

abbrev pub or_refused {ℓ} : {A : Type ℓ} → Option A → ApiError → Checked A
or_refused none e = refused e
or_refused (some a) e = ok a

abbrev pub event_or : {Args : Type 0} → Text → Option (Decoded Args) → Option Args → Option Args
event_or event_name none rest = rest
event_or event_name (some d) rest = if text_eq d.event_name event_name then some d.args else rest

module _ {Log : Type 0} where
  -- `decodeBettingCoreLog`, `decodePoolLog` and `decodeCrashLog`: the arguments of the first event of
  -- the name
  unfoldable pub decode_log :
      {Args : Type 0} → (Log → Option (Decoded Args)) → List Log → Text → Option Args
  decode_log decode [] event_name = none
  decode_log decode (log ∷ logs) event_name =
      event_or event_name (decode log) (decode_log decode logs event_name)

  -- What a receipt that was read has to fulfil.
  unfoldable pub confirm : Text → Receipt Log → Checked (Receipt Log)
  confirm contract r =
      if not r.success
      then refused transaction_failed
      else if not (is_sent_to contract r.sent_to)
      then refused wrong_contract
      else ok r

  -- `getConfirmedReceipt`
  unfoldable pub get_confirmed_receipt : Text → Option (Receipt Log) → Checked (Receipt Log)
  get_confirmed_receipt contract found = do r ← or_refused found no_receipt; confirm contract r

-- The arguments of the events of BettingCore; an argument that an event does not have is `none`.
pub record BettingArgs : Type 0 where
  pub bettor : Text
  pub bet_id : Option Text
  pub parlay_id : Option Text
  pub market_id : Option Text
  pub market_ids : List Text
  pub outcome : Option ℕ
  pub outcomes : List ℕ
  pub amount : Option ℕ
  pub stake : Option ℕ
  pub payout : Option ℕ
  pub potential_payout : Option ℕ
  pub odds_x1000 : Option ℕ
  pub combined_odds_x1000 : Option ℕ

pub record VerifiedBetPlacement : Type 0 where
  pub bet_id : Option Text
  pub market_id : Option Text
  pub bettor : Text
  pub outcome : Option ℕ
  pub amount : Option ℕ
  pub potential_payout : Option ℕ
  pub odds_x1000 : Option ℕ

pub record VerifiedParlayPlacement : Type 0 where
  pub parlay_id : Option Text
  pub bettor : Text
  pub market_ids : List Text
  pub outcomes : List ℕ
  pub stake : Option ℕ
  pub potential_payout : Option ℕ
  pub combined_odds_x1000 : Option ℕ

pub record VerifiedClaim : Type 0 where
  pub id : Option Text
  pub amount : Option ℕ

abbrev pub check_bettor : Text → BettingArgs → Checked BettingArgs
check_bettor expected args =
    if not (same_address args.bettor expected) then refused sender_mismatch else ok args

-- `a ?? b`
abbrev pub or_second {ℓ} : {A : Type ℓ} → Option A → Option A → Option A
or_second none b = b
or_second (some a) b = some a

pub data ClaimEvent : Type 0 where
  winnings_claimed refund_claimed parlay_won parlay_refunded : ClaimEvent

abbrev pub claim_event_name : ClaimEvent → Text
claim_event_name winnings_claimed = codes "WinningsClaimed"
claim_event_name refund_claimed = codes "RefundClaimed"
claim_event_name parlay_won = codes "ParlayWon"
claim_event_name parlay_refunded = codes "ParlayRefunded"

module _ {Log : Type 0} where
  unfoldable pub verify_bet_placed :
      (Log → Option (Decoded BettingArgs))
      → Text
      → Option (Receipt Log)
      → Text
      → Checked VerifiedBetPlacement
  verify_bet_placed decode contract found expected_bettor = do
    receipt ← get_confirmed_receipt contract found
    args ← or_refused (decode_log decode receipt.logs (codes "BetPlaced")) event_not_found
    args ← check_bettor expected_bettor args
    ok (record {
      bet_id = args.bet_id;
      market_id = args.market_id;
      bettor = args.bettor;
      outcome = args.outcome;
      amount = args.amount;
      potential_payout = args.potential_payout;
      odds_x1000 = args.odds_x1000;
    })

  unfoldable pub verify_parlay_placed :
      (Log → Option (Decoded BettingArgs))
      → Text
      → Option (Receipt Log)
      → Text
      → Checked VerifiedParlayPlacement
  verify_parlay_placed decode contract found expected_bettor = do
    receipt ← get_confirmed_receipt contract found
    args ← or_refused (decode_log decode receipt.logs (codes "ParlayPlaced")) event_not_found
    args ← check_bettor expected_bettor args
    ok (record {
      parlay_id = args.parlay_id;
      bettor = args.bettor;
      market_ids = args.market_ids;
      outcomes = args.outcomes;
      stake = args.stake;
      potential_payout = args.potential_payout;
      combined_odds_x1000 = args.combined_odds_x1000;
    })

  unfoldable pub verify_claim :
      (Log → Option (Decoded BettingArgs))
      → Text
      → Option (Receipt Log)
      → ClaimEvent
      → Text
      → Checked VerifiedClaim
  verify_claim decode contract found event expected_bettor = do
    receipt ← get_confirmed_receipt contract found
    args ← or_refused (decode_log decode receipt.logs (claim_event_name event)) event_not_found
    args ← check_bettor expected_bettor args
    ok (record {
      id = or_second args.bet_id args.parlay_id;
      amount = or_second args.amount args.payout;
    })
