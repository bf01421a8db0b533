-- ===== src/Verification/Tests.antt =====
-- A receipt with one event of each kind, and the theorems on it.
use sportystake.Base.{
  ℕ, zero, suc, ◌≡◌, refl, Option, none, some, [], ◌∷◌, true, Text, codes, to_lower,
}
use sportystake.Verification.{
  wrong_contract, event_not_found, sender_mismatch, ok, refused, Receipt, Decoded, BettingArgs,
  parlay_won, claim_event_name, verify_bet_placed, verify_parlay_placed, verify_claim,
  get_confirmed_receipt, confirm, decode_log,
}
use sportystake.Verification.Laws.{IsVerdict}
use sportystake.Verification.CasinoHouse.{
  BetReceivedArgs, verify_casino_bet_placed, check_logs, check_log,
}
use sportystake.Verification.Accepted.{placement_of, parlay_of, claim_of, verify_betting-Verdict}

abbrev alice : Text
alice = codes "0xAB"

abbrev bet_args : BettingArgs
bet_args = record {
  bettor = codes "0xab";
  bet_id = some (codes "b1");
  parlay_id = none;
  market_id = some (codes "m1");
  market_ids = [];
  outcome = some 2;
  outcomes = [];
  amount = some 5;
  stake = none;
  payout = none;
  potential_payout = some 9;
  odds_x1000 = some 1_800;
  combined_odds_x1000 = none;
}

-- Log 1 is the event; the others are no events of the contract.
abbrev decode_betting : ℕ → Option (Decoded BettingArgs)
decode_betting zero = none
decode_betting (suc zero) = some (record { event_name = codes "BetPlaced"; args = bet_args })
decode_betting (suc (suc n)) = none

abbrev receipt : Receipt ℕ
receipt = record { success = true; sent_to = some (codes "0xC0DE"); logs = 0 ∷ 1 ∷ 2 ∷ [] }

accepted_bet :
    verify_bet_placed decode_betting (codes "0xc0de") (some receipt) alice
    ≡ ok (placement_of bet_args)
unfolding verify_bet_placed get_confirmed_receipt confirm decode_log to_lower
accepted_bet = refl

refused_bets :
    (verify_bet_placed decode_betting (codes "0xc0de") (some receipt) (codes "0xcd")
      ≡ refused sender_mismatch)
    × (verify_parlay_placed decode_betting (codes "0xc0de") (some receipt) alice
        ≡ refused event_not_found)
    × (verify_claim decode_betting (codes "0xbeef") (some receipt) parlay_won alice
        ≡ refused wrong_contract)
unfolding verify_bet_placed verify_parlay_placed verify_claim get_confirmed_receipt confirm
    decode_log to_lower
refused_bets = (refl, refl, refl)

verify_betting-Verdict_example :
    IsVerdict decode_betting
      (λ args. args.bettor)
      (codes "0xc0de")
      (some receipt)
      (codes "BetPlaced")
      alice
      placement_of
      (verify_bet_placed decode_betting (codes "0xc0de") (some receipt) alice)
    × IsVerdict decode_betting
        (λ args. args.bettor)
        (codes "0xc0de")
        (some receipt)
        (codes "ParlayPlaced")
        alice
        parlay_of
        (verify_parlay_placed decode_betting (codes "0xc0de") (some receipt) alice)
    × IsVerdict decode_betting
        (λ args. args.bettor)
        (codes "0xc0de")
        (some receipt)
        (claim_event_name parlay_won)
        alice
        claim_of
        (verify_claim decode_betting (codes "0xc0de") (some receipt) parlay_won alice)
verify_betting-Verdict_example =
    verify_betting-Verdict (codes "0xc0de") (some receipt) alice decode_betting parlay_won

abbrev spin : BetReceivedArgs
spin = record {
  request_id = codes "r1";
  player = codes "0xAb";
  game = 3;
  amount = 10;
  client_seed = codes "s";
}

abbrev decode_casino : ℕ → Option (Decoded BetReceivedArgs)
decode_casino zero = none
decode_casino (suc n) = some (record { event_name = codes "BetReceived"; args = spin })

awaited_spin :
    verify_casino_bet_placed decode_casino (codes "0xC0de") none (some receipt) alice ≡ ok spin
unfolding verify_casino_bet_placed confirm check_logs check_log to_lower
awaited_spin = refl
