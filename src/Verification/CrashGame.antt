-- ===== src/Verification/CrashGame.antt =====
-- src/lib/server/crashVerification.ts.
use sportystake.Base.{ℕ, not, Option, none, some, if◌then◌else◌, Text, codes}
use sportystake.Verification.{
  event_not_found, sender_mismatch, Checked, ok, refused, ◌>>=◌, Receipt, Decoded, same_address,
  or_refused, get_confirmed_receipt, decode_log,
}

pub record CrashArgs : Type 0 where
  pub player : Text
  pub round_id : ℕ
  pub amount : ℕ
  pub auto_cashout_x100 : ℕ
  pub multiplier_x100 : ℕ

unfoldable pub require_player : Option CrashArgs → Text → Checked (Option CrashArgs)
require_player none expected = ok none
require_player (some args) expected =
    if not (same_address args.player expected) then refused sender_mismatch else ok (some args)

pub record VerifiedJoin : Type 0 where
  pub round_id : ℕ
  pub amount : ℕ
  pub auto_cashout_x100 : ℕ

pub record VerifiedCashout : Type 0 where
  pub round_id : ℕ
  pub multiplier_x100 : ℕ

module _ {Log : Type 0} where
  unfoldable pub verify_round_joined :
      (Log → Option (Decoded CrashArgs)) → Text → Option (Receipt Log) → Text → Checked VerifiedJoin
  verify_round_joined decode contract found expected_player = do
    receipt ← get_confirmed_receipt contract found
    own ← require_player (decode_log decode receipt.logs (codes "PlayerJoined")) expected_player
    args ← or_refused own event_not_found
    ok (record {
      round_id = args.round_id;
      amount = args.amount;
      auto_cashout_x100 = args.auto_cashout_x100;
    })

  unfoldable pub verify_cashed_out :
      (Log → Option (Decoded CrashArgs))
      → Text
      → Option (Receipt Log)
      → Text
      → Checked VerifiedCashout
  verify_cashed_out decode contract found expected_player = do
    receipt ← get_confirmed_receipt contract found
    own ← require_player (decode_log decode receipt.logs (codes "PlayerCashedOut")) expected_player
    args ← or_refused own event_not_found
    ok (record { round_id = args.round_id; multiplier_x100 = args.multiplier_x100 })

  unfoldable pub verify_payout_claimed :
      (Log → Option (Decoded CrashArgs)) → Text → Option (Receipt Log) → Text → Checked ℕ
  verify_payout_claimed decode contract found expected_player = do
    receipt ← get_confirmed_receipt contract found
    own ← require_player (decode_log decode receipt.logs (codes "PayoutClaimed")) expected_player
    args ← or_refused own event_not_found
    ok args.amount
