-- ===== src/Casino/Onchain.antt =====
-- `settleCasinoBetOnchain` (src/lib/server/casinoOnchain.ts). What the chain client gives is a
-- parameter; of a cause only its text counts.
use sportystake.Base.{
  ℕ, Bool, ◌||◌, Option, none, some, List, [], ◌∷◌, if◌then◌else◌, Text, codes, includes, text_eq,
  to_lower,
}

-- The event `GameSettled`.
pub record GameSettled : Type 0 where
  pub request_id : Text
  pub payout : ℕ

abbrev pub settled_or : Text → Option GameSettled → Option ℕ → Option ℕ
settled_or request_id none rest = rest
settled_or request_id (some e) rest =
    if text_eq (to_lower e.request_id) (to_lower request_id) then some e.payout else rest

unfoldable pub decode_settled_payout :
    {Log : Type 0} → (Log → Option GameSettled) → List Log → Text → Option ℕ
decode_settled_payout decode [] request_id = none
decode_settled_payout decode (log ∷ logs) request_id =
    settled_or request_id (decode log) (decode_settled_payout decode logs request_id)

-- What sending `settleGame` comes to: no contract or key; an error with its text; or a receipt.
pub data Sent (Log : Type 0) : Type 0 where
  unconfigured : Sent Log
  send_failed : Text → Sent Log
  mined : Text → List Log → Sent Log

pub data SettleResult : Type 0 where
  no_settlement : SettleResult
  settled : Text → ℕ → SettleResult
  settlement_error : Text → SettleResult

abbrev pub settled_with : Text → Option ℕ → SettleResult
settled_with tx_hash none = settlement_error (codes "undefined")
settled_with tx_hash (some actual_payout) = settled tx_hash actual_payout

unfoldable pub settle_casino_bet_onchain :
    {Log : Type 0} → (Log → Option GameSettled) → Text → Sent Log → SettleResult
settle_casino_bet_onchain decode request_id unconfigured = no_settlement
settle_casino_bet_onchain decode request_id (send_failed cause) = settlement_error cause
settle_casino_bet_onchain decode request_id (mined tx_hash logs) =
    settled_with tx_hash (decode_settled_payout decode logs request_id)

-- `isAlreadySettled`
unfoldable pub is_already_settled : Text → Bool
is_already_settled cause = includes cause (codes "BetAlreadySettled") || includes cause (codes "0x")
