-- ===== src/Crash/Bets.antt =====
-- The bets of a crash round as rows: the routes join and cashout under src/app/api/casino/crash,
-- and `reconcilePendingBets` and `reconcileCancelledBets` of src/workers/crash-scheduler.worker.ts,
-- where every update of the database succeeds. Sign-in, rate limit and notifications are left out.
pub mod Laws
pub mod Joins
use sportystake.Base.{
  ℕ, suc, ◌≤◌, Bool, true, false, ◌&&◌, not, Option, none, some, List, [], ◌∷◌, ◌++◌, map, foldl,
  ltb, ◌==◌, if◌then◌else◌, Text, text_eq, to_lower, lookup, put,
}
use sportystake.Casino.Blackjack.Hand.{
  BetState, bet_pending, bet_won, bet_lost, bet_cancelled, bet_refunded,
}
use sportystake.Verification.{ApiError, Checked, ok, refused, ◌>>=◌, Receipt, Decoded}
use sportystake.Verification.CrashGame.{
  CrashArgs, VerifiedJoin, VerifiedCashout, verify_round_joined, verify_cashed_out,
}

-- The keys of `metadata` that the code writes.
pub record Metadata : Type 0 where
  pub auto_cashout_x100 : Option ℕ
  pub cashed_out_at_x100 : Option ℕ
  pub crash_multiplier_x100 : Option ℕ
  pub cancelled : Bool

-- A row of `CasinoBet` with the wallet of its user.
pub record CasinoBet : Type 0 where
  pub user_id : ℕ
  pub wallet_address : Text
  pub is_crash : Bool
  pub amount : ℕ
  pub payout : ℕ
  pub status : BetState
  pub seed_client : Text
  pub nonce : ℕ
  pub metadata : Metadata
  pub tx_hash : Option Text

abbrev pub is_pending : BetState → Bool
is_pending bet_pending = true
is_pending _ = false

-- `where: { game: "CRASH", nonce: roundId, status: "PENDING" }`
abbrev pub is_open : ℕ → CasinoBet → Bool
is_open round_id b = b.is_crash && b.nonce == round_id && is_pending b.status

abbrev pub cancel_bet : CasinoBet → CasinoBet
cancel_bet b = record b {
  status = bet_refunded;
  metadata = record {
    auto_cashout_x100 = none;
    cashed_out_at_x100 = none;
    crash_multiplier_x100 = none;
    cancelled = true;
  };
}

unfoldable pub reconcile_cancelled_bets : ℕ → List CasinoBet → List CasinoBet
reconcile_cancelled_bets round_id = map λ b. if is_open round_id b then cancel_bet b else b

-- `payouts.get(…) ?? 0n`
abbrev pub or_zero : Option ℕ → ℕ
or_zero none = 0
or_zero (some n) = n

unfoldable pub settle_bet : ℕ → List (Text × ℕ) → CasinoBet → CasinoBet
settle_bet crash_multiplier_x100 payouts b =
    let payout = or_zero (lookup (to_lower b.wallet_address) payouts) in
    record b {
      status = if ltb 0 payout then bet_won else bet_lost;
      payout = payout;
      metadata = record b.metadata { crash_multiplier_x100 = some crash_multiplier_x100 };
    }

unfoldable pub reconcile_pending_bets : ℕ → ℕ → List (Text × ℕ) → List CasinoBet → List CasinoBet
reconcile_pending_bets round_id crash_multiplier_x100 payouts =
    map λ b. if is_open round_id b then settle_bet crash_multiplier_x100 payouts b else b

abbrev pub has_tx : Text → CasinoBet → Bool
has_tx tx b = elim b.tx_hash [ none ↦ false | some t ↦ text_eq t tx ]

-- `findFirst({ where: { txHash } })`, as far as it matters: whether there is one
abbrev pub is_recorded : Text → List CasinoBet → Bool
is_recorded tx [] = false
is_recorded tx (b ∷ bets) = if has_tx tx b then true else is_recorded tx bets

pub record Joined : Type 0 where
  pub round_id : ℕ
  pub amount : ℕ
  pub idempotent : Bool
  pub bets : List CasinoBet

abbrev pub joined_bet : ℕ → Text → Text → Text → VerifiedJoin → CasinoBet
joined_bet user wallet tx client_seed v = record {
  user_id = user;
  wallet_address = wallet;
  is_crash = true;
  amount = v.amount;
  payout = 0;
  status = bet_pending;
  seed_client = client_seed;
  nonce = v.round_id;
  metadata = record {
    auto_cashout_x100 = some v.auto_cashout_x100;
    cashed_out_at_x100 = none;
    crash_multiplier_x100 = none;
    cancelled = false;
  };
  tx_hash = some tx;
}

unfoldable pub record_join : ℕ → Text → Text → Text → List CasinoBet → VerifiedJoin → Joined
record_join user wallet tx client_seed bets v =
    if is_recorded tx bets
    then record { round_id = v.round_id; amount = v.amount; idempotent = true; bets = bets }
    else record {
      round_id = v.round_id;
      amount = v.amount;
      idempotent = false;
      bets = bets ++ joined_bet user wallet tx client_seed v ∷ [];
    }

-- The pending bet of a user in a round.
abbrev pub is_own : ℕ → ℕ → CasinoBet → Bool
is_own user round_id b = b.user_id == user && is_open round_id b

abbrev pub note_cashout : ℕ → CasinoBet → CasinoBet
note_cashout multiplier_x100 b = record b {
  metadata = record b.metadata { cashed_out_at_x100 = some multiplier_x100 };
}

-- One row or the later ones; `rest` is what becomes of those.
abbrev pub newest_or :
    (CasinoBet → Bool)
    → (CasinoBet → CasinoBet)
    → CasinoBet
    → List CasinoBet
    → Option (List CasinoBet)
    → Option (List CasinoBet)
newest_or p f b bets (some changed) = some (b ∷ changed)
newest_or p f b bets none = if p b then some (f b ∷ bets) else none

-- `findFirst` with `orderBy: { placedAt: "desc" }`, and the update of the row that it finds: rows
-- stand in the order of their placement.
unfoldable pub update_newest :
    (CasinoBet → Bool) → (CasinoBet → CasinoBet) → List CasinoBet → Option (List CasinoBet)
update_newest p f [] = none
update_newest p f (b ∷ bets) = newest_or p f b bets (update_newest p f bets)

module _ {Log : Type 0} (decode : Log → Option (Decoded CrashArgs)) (contract : Text) where
  -- The handler of join, from the check on; the user is signed in with the wallet.
  unfoldable pub join :
      ℕ → Text → Text → Text → Option (Receipt Log) → List CasinoBet → Checked Joined
  join user wallet tx client_seed found bets = do
    verified ← verify_round_joined decode contract found wallet
    ok (record_join user wallet tx client_seed bets verified)

  -- The handler of cashout, from the check on: the multiplier is noted, and the bet stays pending.
  -- `none` is the error that there is no pending bet.
  unfoldable pub cashout :
      ℕ → Text → Option (Receipt Log) → List CasinoBet → Checked (Option (List CasinoBet))
  cashout user wallet found bets = do
    verified ← verify_cashed_out decode contract found wallet
    ok (update_newest (is_own user verified.round_id) (note_cashout verified.multiplier_x100) bets)
