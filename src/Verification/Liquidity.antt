-- ===== src/Verification/Liquidity.antt =====
-- src/lib/server/liquidityVerification.ts.
use sportystake.Base.{ℕ, not, Option, none, some, if◌then◌else◌, Text, codes}
use sportystake.Verification.{
  event_not_found, sender_mismatch, Checked, ok, refused, ◌>>=◌, Receipt, Decoded, same_address,
  or_refused, get_confirmed_receipt, decode_log,
}

pub record PoolArgs : Type 0 where
  pub lp : Text
  pub usdc_amount : ℕ
  pub shares_minted : ℕ
  pub unlock_at : ℕ
  pub shares_burned : ℕ
  pub usdc_out : ℕ

unfoldable pub require_lp : Option PoolArgs → Text → Checked (Option PoolArgs)
require_lp none expected = ok none
require_lp (some args) expected =
    if not (same_address args.lp expected) then refused sender_mismatch else ok (some args)

pub record VerifiedDeposit : Type 0 where
  pub usdc_amount : ℕ
  pub shares_minted : ℕ

pub record VerifiedWithdrawal : Type 0 where
  pub shares_burned : ℕ
  pub usdc_out : ℕ

module _ {Log : Type 0} where
  unfoldable pub verify_deposit :
      (Log → Option (Decoded PoolArgs))
      → Text
      → Option (Receipt Log)
      → Text
      → Checked VerifiedDeposit
  verify_deposit decode contract found expected_lp = do
    receipt ← get_confirmed_receipt contract found
    own ← require_lp (decode_log decode receipt.logs (codes "Deposited")) expected_lp
    args ← or_refused own event_not_found
    ok (record { usdc_amount = args.usdc_amount; shares_minted = args.shares_minted })

  unfoldable pub verify_withdrawal_requested :
      (Log → Option (Decoded PoolArgs)) → Text → Option (Receipt Log) → Text → Checked ℕ
  verify_withdrawal_requested decode contract found expected_lp = do
    receipt ← get_confirmed_receipt contract found
    own ← require_lp (decode_log decode receipt.logs (codes "WithdrawalRequested")) expected_lp
    args ← or_refused own event_not_found
    ok args.unlock_at

  unfoldable pub verify_withdrawal_executed :
      (Log → Option (Decoded PoolArgs))
      → Text
      → Option (Receipt Log)
      → Text
      → Checked VerifiedWithdrawal
  verify_withdrawal_executed decode contract found expected_lp = do
    receipt ← get_confirmed_receipt contract found
    own ← require_lp (decode_log decode receipt.logs (codes "WithdrawalExecuted")) expected_lp
    args ← or_refused own event_not_found
    ok (record { shares_burned = args.shares_burned; usdc_out = args.usdc_out })
