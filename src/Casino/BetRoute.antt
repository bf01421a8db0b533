-- ===== src/Casino/BetRoute.antt =====
-- The handler of src/app/api/casino/bet/route.ts: the check of the reported transaction, the draw, the
-- settlement on the chain and the row. The hash of the client seed, the secret seed, the chain and
-- the decoders are parameters. Sign-in, rate limit, the parsing of the body, the multiplier and the
-- details of a game, and the notification are left out.
pub mod Laws
pub mod Nonces
mod Tests
use sportystake.Base.{
  ℕ, suc, ◌+◌, Bool, true, false, not, ◌&&◌, Option, none, some, List, [], ◌∷◌, ◌++◌, ltb, ◌==◌,
  if◌then◌else◌, Text, text_eq,
}
use sportystake.Verification.{Checked, Receipt, Decoded, same_address}
use sportystake.Verification
use sportystake.Verification.CasinoHouse.{BetReceivedArgs, verify_casino_bet_placed}
use sportystake.Casino.Draws.{Platform}
use sportystake.Casino.Dice.{Direction, DiceResult, resolve_dice_bet}
use sportystake.Casino.Slots.{SlotResult, resolve_slots}
use sportystake.Casino.Roulette.{RouletteBet, RouletteResult, resolve_roulette_bet}
use sportystake.Casino.Baccarat.{Winner, BaccaratResult, resolve_baccarat}
use sportystake.Casino.Onchain.{
  GameSettled, Sent, SettleResult, no_settlement, settled, settlement_error,
  settle_casino_bet_onchain, is_already_settled,
}

-- The body of a request, by its game.
pub data Wager : Type 0 where
  dice : (target : ℕ) → Direction → Wager
  slots : (lines : ℕ) → Wager
  roulette : RouletteBet → Option ℕ → Wager
  baccarat : Winner → Wager

-- `GAME_TO_ONCHAIN_TYPE`
abbrev pub onchain_type : Wager → ℕ
onchain_type (dice target direction) = 0
onchain_type (slots lines) = 1
onchain_type (roulette bet selection) = 3
onchain_type (baccarat bet) = 4

pub record Request : Type 0 where
  pub user_id : ℕ
  pub wallet : Text
  pub tx_hash : Text
  pub client_seed : Text
  pub wager : Wager

-- A row of `CasinoBet` of one of the four games, which its number on the chain stands for.
pub record CasinoRow : Type 0 where
  pub user_id : ℕ
  pub game : ℕ
  pub amount : ℕ
  pub payout : ℕ
  pub is_won : Bool
  pub request_id : Option Text
  pub seed_server : Text
  pub seed_client : Text
  pub nonce : ℕ
  pub tx_hash : Text

pub data RouteError : Type 0 where
  unverified : Verification.ApiError → RouteError
  game_mismatch seed_mismatch bet_already_settled unresolved : RouteError

-- What is answered of a bet.
pub record Reply : Type 0 where
  pub win : Bool
  pub payout : ℕ
  pub server_seed : Text
  pub nonce : ℕ
  pub is_settled : Bool
  pub idempotent : Bool

pub data Answer : Type 0 where
  error : RouteError → Answer
  reply : Reply → Answer

abbrev pub has_request : Text → CasinoRow → Bool
has_request request_id row = elim row.request_id [ none ↦ false | some r ↦ text_eq r request_id ]

-- `findFirst({ where: { requestId } })`
unfoldable pub find_request : Text → List CasinoRow → Option CasinoRow
find_request request_id [] = none
find_request request_id (row ∷ rows) =
    if has_request request_id row then some row else find_request request_id rows

-- The number of bets of the user in the game.
unfoldable pub count_bets : ℕ → ℕ → List CasinoRow → ℕ
count_bets user game [] = 0
count_bets user game (row ∷ rows) =
    let rest = count_bets user game rows in
    if row.user_id == user && row.game == game then suc rest else rest

abbrev pub dice_payout : Option DiceResult → Option ℕ
dice_payout none = none
dice_payout (some r) = some r.payout

abbrev pub slots_payout : Option SlotResult → Option ℕ
slots_payout none = none
slots_payout (some r) = some r.payout

abbrev pub roulette_payout : Option RouletteResult → Option ℕ
roulette_payout none = none
roulette_payout (some r) = some r.payout

abbrev pub baccarat_payout : Option BaccaratResult → Option ℕ
baccarat_payout none = none
baccarat_payout (some r) = some r.payout

-- The reads of the contract, and the platform of the draws with the fuel for their retries.
pub record House : Type 0 where
  pub platform : Platform
  pub fuel : ℕ
  pub rtp_bps : ℕ
  pub available_capacity : Text → ℕ

-- The payout that the draw gives; `none` where the resolver throws or the fuel is spent.
unfoldable pub draw_payout : House → Text → Text → Text → ℕ → ℕ → Wager → Option ℕ
draw_payout h request_id server_seed client_seed nonce amount (dice target direction) =
    dice_payout (
      resolve_dice_bet h.platform server_seed client_seed nonce amount target direction h.rtp_bps
        (h.available_capacity request_id))
draw_payout h request_id server_seed client_seed nonce amount (slots lines) = slots_payout (
    resolve_slots h.platform h.fuel server_seed client_seed nonce amount lines
      (h.available_capacity request_id))
draw_payout h request_id server_seed client_seed nonce amount (roulette bet selection) =
    roulette_payout (
      resolve_roulette_bet h.platform server_seed client_seed nonce amount bet selection
        (h.available_capacity request_id))
draw_payout h request_id server_seed client_seed nonce amount (baccarat bet) = baccarat_payout (
    resolve_baccarat h.platform h.fuel server_seed client_seed nonce amount bet
      (h.available_capacity request_id))

-- The rest of a row and of its answer, once it is known what was paid: `settle_tx` is `settleTxHash`.
unfoldable pub persist :
    Request
    → BetReceivedArgs
    → Text
    → ℕ
    → Option Text
    → ℕ
    → List CasinoRow
    → Answer × List CasinoRow
persist q v server_seed nonce settle_tx final_payout rows = (
  reply (record {
    win = ltb 0 final_payout;
    payout = final_payout;
    server_seed = server_seed;
    nonce = nonce;
    is_settled = elim settle_tx [ none ↦ false | some tx ↦ true ];
    idempotent = false;
  }),
  rows
      ++ (record {
        user_id = q.user_id;
        game = onchain_type q.wager;
        amount = v.amount;
        payout = final_payout;
        is_won = ltb 0 final_payout;
        request_id = some v.request_id;
        seed_server = server_seed;
        seed_client = q.client_seed;
        nonce = nonce;
        tx_hash = elim settle_tx [ none ↦ q.tx_hash | some tx ↦ tx ];
      }
          ∷ []),
)

-- By what the settlement comes to: an error that does not look like a bet settled before is logged,
-- and the row is written all the same.
abbrev pub after_settle :
    Request
    → BetReceivedArgs
    → Text
    → ℕ
    → ℕ
    → List CasinoRow
    → SettleResult
    → Answer × List CasinoRow
after_settle q v server_seed nonce payout rows no_settlement =
    persist q v server_seed nonce none payout rows
after_settle q v server_seed nonce payout rows (settled tx actual_payout) =
    persist q v server_seed nonce (some tx) actual_payout rows
after_settle q v server_seed nonce payout rows (settlement_error cause) =
    if is_already_settled cause
    then (error bet_already_settled, rows)
    else persist q v server_seed nonce (some q.tx_hash) payout rows

module _ {Log : Type 0} (decode : Log → Option GameSettled) (h : House) (send : Text → ℕ → Sent Log)
    (server_seed : Text) where
  abbrev pub settle_drawn :
      Request → BetReceivedArgs → ℕ → List CasinoRow → Option ℕ → Answer × List CasinoRow
  settle_drawn q v nonce rows none = (error unresolved, rows)
  settle_drawn q v nonce rows (some payout) =
      after_settle q v server_seed nonce payout rows
        (settle_casino_bet_onchain decode v.request_id (send v.request_id payout))

  unfoldable pub play : Request → BetReceivedArgs → List CasinoRow → Answer × List CasinoRow
  play q v rows =
      let nonce = count_bets q.user_id (onchain_type q.wager) rows in
      settle_drawn q v nonce rows
        (draw_payout h v.request_id server_seed q.client_seed nonce v.amount q.wager)

  abbrev pub replay_or :
      Request → BetReceivedArgs → List CasinoRow → Option CasinoRow → Answer × List CasinoRow
  replay_or q v rows none = play q v rows
  replay_or q v rows (some row) = (
    reply (record {
      win = row.is_won;
      payout = row.payout;
      server_seed = row.seed_server;
      nonce = row.nonce;
      is_settled = not (text_eq row.tx_hash q.tx_hash);
      idempotent = true;
    }),
    rows,
  )

  -- Behind the check of the transaction.
  unfoldable pub answer :
      (Text → Text) → Request → BetReceivedArgs → List CasinoRow → Answer × List CasinoRow
  answer seed_hash q v rows =
      if not (v.game == onchain_type q.wager)
      then (error game_mismatch, rows)
      else if not (same_address v.client_seed (seed_hash q.client_seed))
      then (error seed_mismatch, rows)
      else replay_or q v rows (find_request v.request_id rows)

  abbrev pub answer_checked :
      (Text → Text) → Request → List CasinoRow → Checked BetReceivedArgs → Answer × List CasinoRow
  answer_checked seed_hash q rows (Checked.refused e) = (error (unverified e), rows)
  answer_checked seed_hash q rows (Checked.ok v) = answer seed_hash q v rows

-- `POST`, behind sign-in, rate limit and the parsing of the body.
unfoldable pub post :
    {EventLog Log : Type 0}
    → (EventLog → Option (Decoded BetReceivedArgs))
    → Text
    → Option (Receipt EventLog)
    → Option (Receipt EventLog)
    → (Text → Text)
    → (Log → Option GameSettled)
    → House
    → (Text → ℕ → Sent Log)
    → Text
    → Request
    → List CasinoRow
    → Answer × List CasinoRow
post decode_bet contract at_once awaited seed_hash decode h send server_seed q rows =
    answer_checked decode h send server_seed seed_hash q rows
      (verify_casino_bet_placed decode_bet contract at_once awaited q.wallet)
