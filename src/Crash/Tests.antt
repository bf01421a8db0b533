-- ===== src/Crash/Tests.antt =====
-- A round with two bets, and the theorems on the crash game.
use sportystake.Base.{
  ℕ, ◌+◌, ◌*◌, ◌≤◌, ◌≡◌, refl, ◌⊎◌, inr, true, false, Option, none, some, List, [], ◌∷◌, All, any,
  if◌then◌else◌, sum_by, arith, Text, codes, to_lower,
}
use sportystake.Casino.Blackjack.Hand.{bet_pending}
use sportystake.Crash.Point.{onchain_crash_multiplier_x100, no_risk_x100, curve_x100}
use sportystake.Crash.Point.Laws.{pays, hits, pays_lem}
use sportystake.Verification.{ok, Receipt, Decoded, confirm, get_confirmed_receipt, decode_log}
use sportystake.Verification.CrashGame.{CrashArgs, verify_round_joined, require_player}
use sportystake.Crash.Bets.{
  CasinoBet, is_open, reconcile_pending_bets, reconcile_cancelled_bets, settle_bet, join,
  record_join, Joined, joined_bet,
}
use sportystake.Crash.Bets.Laws.{HasOwnWallets, total, reconcile_pending_bets_lem}
use sportystake.Crash.Bets.Joins.{rows_of, join_twice}
use sportystake.Crash.Rounds.{
  crashed, CrashEvent, round_started, round_resolved, payout_credited, RoundReceipt, CrashGame,
  Store, Draws, push_history, run_round, decode_round_id, decode_resolved_crash, decode_payouts,
  Cancellation, cancel_pending_round, cancel_stuck_round, CurrentRound, recover_stuck_rounds,
}
use sportystake.Crash.Rounds.Laws.{
  run_round-keeps_seed, is_stuck, stakes, is_refunded, is_lost, recover_stuck_rounds_lem,
  reverted_round,
}

points :
    (onchain_crash_multiplier_x100 (λ s r. 500) 1 1 9_000 false ≡ 100)
    × (onchain_crash_multiplier_x100 (λ s r. 959_999) 1 1 9_000 false ≡ 2_249)
    × (onchain_crash_multiplier_x100 (λ s r. 999_999) 1 1 9_000 true ≡ 2_282)
unfolding onchain_crash_multiplier_x100 curve_x100 no_risk_x100
points = (refl, refl, refl)

-- The target 10.00 at a rate of 90 percent.
pays_lem_example :
    (hits (pays 9_000 1_000) 0 1_000_000 ≡ 9_000 * 9)
    × (1_000 * hits (pays 9_000 1_000) 0 1_000_000 ≡ 9_000 * 9_000)
pays_lem_example = pays_lem 9_000 1_000 9 (omega arith) (omega arith) refl (omega arith)

abbrev bet_of : ℕ → Text → ℕ → CasinoBet
bet_of user wallet amount = record {
  user_id = user;
  wallet_address = wallet;
  is_crash = true;
  amount = amount;
  payout = 0;
  status = bet_pending;
  seed_client = codes "default";
  nonce = 7;
  metadata = record {
    auto_cashout_x100 = none;
    cashed_out_at_x100 = none;
    crash_multiplier_x100 = none;
    cancelled = false;
  };
  tx_hash = some wallet;
}

abbrev table : List CasinoBet
table = bet_of 1 (codes "0xAA") 10 ∷ bet_of 2 (codes "0xBB") 20 ∷ []

table-HasOwnWallets : HasOwnWallets 7 table
unfolding to_lower
table-HasOwnWallets = (inr (inr refl, tt), (inr tt, tt))

reconcile_pending_bets_lem_example :
    let settled = reconcile_pending_bets 7 150 ((codes "0xaa", 15) ∷ []) table in
    (sum_by (λ b. b.payout) settled
      ≤ sum_by (λ b. b.payout) table + total ((codes "0xaa", 15) ∷ []))
    × (any (is_open 7) settled ≡ false)
    × ((x' : ℕ) (payouts' : List (Text × ℕ))
        → reconcile_pending_bets 7 x' payouts' settled ≡ settled)
    × (reconcile_cancelled_bets 7 settled ≡ settled)
reconcile_pending_bets_lem_example =
    reconcile_pending_bets_lem 7 150 ((codes "0xaa", 15) ∷ []) table table-HasOwnWallets

booked_payouts :
    sum_by (λ b. b.payout) (reconcile_pending_bets 7 150 ((codes "0xaa", 15) ∷ []) table) ≡ 15
unfolding reconcile_pending_bets settle_bet to_lower
booked_payouts = refl

abbrev player_joined : CrashArgs
player_joined = record {
  player = codes "0xcc";
  round_id = 7;
  amount = 5;
  auto_cashout_x100 = 200;
  multiplier_x100 = 0;
}

abbrev decode_join : ℕ → Option (Decoded CrashArgs)
decode_join n = some (record { event_name = codes "PlayerJoined"; args = player_joined })

abbrev join_receipt : Receipt ℕ
join_receipt = record { success = true; sent_to = some (codes "0xGAME"); logs = 0 ∷ [] }

abbrev joined_table : Joined
joined_table = record {
  round_id = 7;
  amount = 5;
  idempotent = false;
  bets =
      joined_bet 3 (codes "0xcc") (codes "0x01") (codes "s")
        (record { round_id = 7; amount = 5; auto_cashout_x100 = 200 })
      ∷ [];
}

join_twice_example :
    (join decode_join
        (codes "0xGAME")
        3
        (codes "0xcc")
        (codes "0x01")
        (codes "s")
        (some join_receipt)
        joined_table.bets
      ≡ ok (record joined_table { idempotent = true }))
    × ((t : Text) → rows_of t joined_table.bets ≤ 1)
unfolding join record_join verify_round_joined get_confirmed_receipt confirm decode_log
    require_player to_lower
join_twice_example =
    join_twice 3 (codes "0xcc") (codes "0x01") (codes "s") decode_join (codes "0xGAME")
      (some join_receipt) [] joined_table (λ t. omega arith) refl

-- A contract whose round 7 crashes at 1.50 and credits one player; a log is its own event.
abbrev resolves : CrashGame CrashEvent
resolves = record {
  start_round = λ hash. some (record { succeeded = true; logs = round_started 7 ∷ [] });
  lock_round = λ id. some (record { succeeded = true; logs = [] });
  rtp_bps = some 9_000;
  total_staked = λ id. some 30;
  resolve_round = λ id seed. some (record {
    succeeded = true;
    logs = payout_credited (codes "0xAa") 15 ∷ round_resolved 7 150 ∷ [];
  });
}

abbrev draws : Draws
draws = record {
  server_seed = 5;
  keccak256 = λ seed. seed + 100;
  mix = ◌+◌;
  waiting_since = 1;
  started_at = 2;
}

abbrev before_round : Store
before_round = record { history = 200 ∷ []; bets = table }

round_history : (run_round (λ e. some e) resolves draws before_round).history ≡ 150 ∷ 200 ∷ []
unfolding run_round sportystake.Crash.Rounds.lock_and_fly decode_round_id decode_resolved_crash
    sportystake.Crash.Rounds.push_history
round_history = refl

run_round-keeps_seed_example :
    All
      (λ w.
        (w.server_seed_hash ≡ 105)
        × (((w.server_seed ≡ none) × (w.crash_multiplier_x100 ≡ none))
            ⊎ ((resolved : RoundReceipt CrashEvent) × (resolves.resolve_round w.id 5
                  ≡ some resolved)
                × (w.server_seed ≡ some 5)
                × (w.status ≡ crashed))))
      (run_round (λ e. some e) resolves draws before_round).written
run_round-keeps_seed_example = run_round-keeps_seed (λ e. some e) resolves draws before_round

abbrev stuck : CurrentRound
stuck = record { id = 7; status = 1; started_at = 100 }

recover_stuck_rounds_lem_example :
    let after = recover_stuck_rounds (λ c id. true) 5_000 (some stuck) table in
    (any (is_open 7) after ≡ (if is_stuck 5_000 stuck then false else any (is_open 7) table))
    × (stakes is_refunded after
        ≡ stakes is_refunded table + (if is_stuck 5_000 stuck then stakes (is_open 7) table else 0))
    × ((is_stuck 5_000 stuck ≡ true) ⊎ (after ≡ table))
recover_stuck_rounds_lem_example =
    recover_stuck_rounds_lem (λ c id. true) 5_000 stuck table (λ c. refl)

-- The same contract, where the call that resolves is reverted.
abbrev reverts : CrashGame CrashEvent
reverts = record resolves {
  resolve_round = λ id seed. some (record { succeeded = false; logs = [] });
}

reverted_round_example :
    let r = run_round (λ e. some e) reverts draws before_round in
    (r.completed ≡ true)
    × (any (is_open 7) r.bets ≡ false)
    × (stakes is_lost r.bets ≡ stakes is_lost table + stakes (is_open 7) table)
    × (r.history
        ≡ push_history (onchain_crash_multiplier_x100 ◌+◌ 5 7 9_000 false) before_round.history)
unfolding decode_round_id
reverted_round_example =
    reverted_round (λ e. some e) reverts draws before_round 7 9_000 30
      (record { succeeded = true; logs = round_started 7 ∷ [] })
      (record { succeeded = true; logs = [] }) refl refl refl refl refl refl
