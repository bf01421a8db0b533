-- ===== src/Casino/BetRoute/Tests.antt =====
-- A dice bet that is reported twice, and the theorems on it.
use sportystake.Base.{
  ℕ, ◌≡◌, ◌⊎◌, refl, true, Option, none, some, List, [], ◌∷◌, ◌++◌, Text, codes, to_lower,
}
use sportystake.Verification.{Checked, Receipt, Decoded, confirm}
use sportystake.Verification.CasinoHouse.{
  BetReceivedArgs, verify_casino_bet_placed, check_logs, check_log,
}
use sportystake.Casino.Dice.{under}
use sportystake.Casino.Onchain.{GameSettled, Sent, mined, unconfigured}
use sportystake.Casino.BetRoute.{dice, Request, CasinoRow, Answer, House, post}
use sportystake.Casino.BetRoute.Laws.{post-IsOnce, IsOnce}
use sportystake.Casino.BetRoute.Nonces.{IsNumbered, IsFresh, post-IsNumbered}

abbrev house : House
house = record {
  platform = record { hmac = λ seed message. 10 ∷ 20 ∷ 30 ∷ 40 ∷ []; show = λ n. n ∷ [] };
  fuel = 3;
  rtp_bps = 9_000;
  available_capacity = λ request_id. 1_000;
}

abbrev received : BetReceivedArgs
received = record {
  request_id = codes "r1";
  player = codes "0xab";
  game = 0;
  amount = 100;
  client_seed = codes "0xff";
}

abbrev decode_bet : ℕ → Option (Decoded BetReceivedArgs)
decode_bet n = some (record { event_name = codes "BetReceived"; args = received })

abbrev receipt : Receipt ℕ
receipt = record { success = true; sent_to = some (codes "0xca"); logs = 0 ∷ [] }

abbrev settles : Text → ℕ → Sent GameSettled
settles request_id payout =
    mined (codes "0x9") (record { request_id = request_id; payout = payout } ∷ [])

abbrev request : Request
request = record {
  user_id = 1;
  wallet = codes "0xAB";
  tx_hash = codes "0x1";
  client_seed = codes "mine";
  wager = dice 50 under;
}

abbrev commit : Text → Text
commit seed = codes "0xFF"

verified :
    verify_casino_bet_placed decode_bet (codes "0xca") (some receipt) none (codes "0xAB")
    ≡ Checked.ok received
unfolding verify_casino_bet_placed confirm check_logs check_log to_lower
verified = refl

abbrev first_answer : Answer × List CasinoRow
first_answer =
    post decode_bet (codes "0xca") (some receipt) none commit (λ e. some e) house settles
      (codes "s1") request []

post-IsOnce_example : IsOnce [] first_answer (
    post decode_bet
      (codes "0xca")
      (some receipt)
      none
      commit
      (λ e. some e)
      house
      (λ request_id payout. unconfigured)
      (codes "s2")
      request
      first_answer.1)
unfolding to_lower
post-IsOnce_example =
    post-IsOnce decode_bet (codes "0xca") commit (λ e. some e) (some receipt) none (some receipt)
      none house house settles (λ request_id payout. unconfigured) (codes "s1") (codes "s2") request
      request received [] verified verified refl refl

post-IsNumbered_example :
    let rows' =
      (post decode_bet
        (codes "0xca")
        (some receipt)
        none
        commit
        (λ e. some e)
        house
        settles
        (codes "s1")
        request
        []).1 in
    IsNumbered rows'
    × ((rows' ≡ []) ⊎ ((row : CasinoRow) × (rows' ≡ [] ++ row ∷ []) × IsFresh [] row))
post-IsNumbered_example =
    post-IsNumbered decode_bet (codes "0xca") commit (λ e. some e) (some receipt) none house settles
      (codes "s1") request [] tt
