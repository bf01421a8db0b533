-- ===== src/Verification/CasinoHouse.antt =====
-- src/lib/server/casinoVerification.ts: the receipt is awaited where it cannot be read at once, and
-- the check of the player stands inside the loop over the logs.
use sportystake.Base.{
  ℕ, not, Option, none, some, List, [], ◌∷◌, if◌then◌else◌, Text, codes, text_eq,
}
use sportystake.Verification.{
  no_receipt, event_not_found, sender_mismatch, Checked, ok, refused, ◌>>=◌, Receipt, Decoded,
  same_address, or_refused, or_second, confirm,
}

pub record BetReceivedArgs : Type 0 where
  pub request_id : Text
  pub player : Text
  pub game : ℕ
  pub amount : ℕ
  pub client_seed : Text

-- One log; `rest` is what the later ones give.
unfoldable pub check_log :
    Text → Option (Decoded BetReceivedArgs) → Checked BetReceivedArgs → Checked BetReceivedArgs
check_log expected_player none rest = rest
check_log expected_player (some d) rest =
    if not (text_eq d.event_name (codes "BetReceived"))
    then rest
    else if not (same_address d.args.player expected_player)
    then refused sender_mismatch
    else ok d.args

module _ {Log : Type 0} where
  unfoldable pub check_logs :
      (Log → Option (Decoded BetReceivedArgs)) → Text → List Log → Checked BetReceivedArgs
  check_logs decode expected_player [] = refused event_not_found
  check_logs decode expected_player (log ∷ logs) =
      check_log expected_player (decode log) (check_logs decode expected_player logs)

  unfoldable pub verify_casino_bet_placed :
      (Log → Option (Decoded BetReceivedArgs))
      → Text
      → Option (Receipt Log)
      → Option (Receipt Log)
      → Text
      → Checked BetReceivedArgs
  verify_casino_bet_placed decode contract at_once awaited expected_player = do
    receipt ← or_refused (or_second at_once awaited) no_receipt
    receipt ← confirm contract receipt
    check_logs decode expected_player receipt.logs
