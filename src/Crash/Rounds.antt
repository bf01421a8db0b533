-- ===== src/Crash/Rounds.antt =====
-- One round after the other: `runRound`, `recoverStuckRounds` and the history of
-- src/workers/crash-scheduler.worker.ts. The contract, the hashes, the decoder of logs and the times
-- are parameters; a call of the contract that throws is `none`, and one that is mined has a receipt,
-- also where the contract has reverted it. The pauses are left out.
pub mod Laws
use sportystake.Base.{
  ℕ, zero, suc, ◌+◌, Bool, true, false, ◌&&◌, Option, none, some, List, [], ◌∷◌, foldl, select,
  take, ltb, leb, ◌==◌, if◌then◌else◌, Text, to_lower, put,
}
use sportystake.Crash.Point.{onchain_crash_multiplier_x100}
use sportystake.Crash.Bets.{CasinoBet, reconcile_pending_bets, reconcile_cancelled_bets}

pub data RoundStatus : Type 0 where
  waiting running crashed : RoundStatus

pub record PublicRoundState : Type 0 where
  pub id : ℕ
  pub status : RoundStatus
  pub server_seed_hash : ℕ
  pub waiting_since : ℕ
  pub started_at : Option ℕ
  pub crash_multiplier_x100 : Option ℕ
  pub server_seed : Option ℕ

abbrev pub history_keep : ℕ
history_keep = 50

unfoldable pub push_history : ℕ → List ℕ → List ℕ
push_history crash_x100 history = take history_keep (crash_x100 ∷ history)

unfoldable pub sanitize_history_cache : List ℕ → List ℕ
sanitize_history_cache = select λ n. ltb 0 n && leb n 5_000

-- The events of CrashGame that the worker reads.
pub data CrashEvent : Type 0 where
  round_started : ℕ → CrashEvent
  round_resolved : ℕ → ℕ → CrashEvent
  payout_credited : Text → ℕ → CrashEvent

abbrev pub started_or : Option CrashEvent → Option ℕ → Option ℕ
started_or (some (round_started round_id)) rest = some round_id
started_or _ rest = rest

abbrev pub resolved_or : ℕ → Option CrashEvent → Option ℕ → Option ℕ
resolved_or round_id (some (round_resolved resolved crash_x100)) rest =
    if resolved == round_id then some crash_x100 else rest
resolved_or round_id _ rest = rest

abbrev pub credit : List (Text × ℕ) → Option CrashEvent → List (Text × ℕ)
credit payouts (some (payout_credited player amount)) = put (to_lower player) amount payouts
credit payouts _ = payouts

module _ {Log : Type 0} (decode : Log → Option CrashEvent) where
  unfoldable pub decode_round_id : List Log → Option ℕ
  decode_round_id [] = none
  decode_round_id (log ∷ logs) = started_or (decode log) (decode_round_id logs)

  unfoldable pub decode_resolved_crash : List Log → ℕ → Option ℕ
  decode_resolved_crash [] round_id = none
  decode_resolved_crash (log ∷ logs) round_id =
      resolved_or round_id (decode log) (decode_resolved_crash logs round_id)

  unfoldable pub decode_payouts : List Log → List (Text × ℕ)
  decode_payouts = foldl (λ payouts log. credit payouts (decode log)) []

-- `TransactionReceipt`: the worker reads the logs only.
pub record RoundReceipt (Log : Type 0) : Type 0 where
  pub succeeded : Bool
  pub logs : List Log

-- The contract in one round.
pub record CrashGame (Log : Type 0) : Type 0 where
  pub start_round : ℕ → Option (RoundReceipt Log)
  pub lock_round : ℕ → Option (RoundReceipt Log)
  pub rtp_bps : Option ℕ
  pub total_staked : ℕ → Option ℕ
  pub resolve_round : ℕ → ℕ → Option (RoundReceipt Log)

-- What a round leaves: the states published, in order, the history, the bets, and whether it ran to
-- its end or threw.
pub record RoundRun : Type 0 where
  pub written : List PublicRoundState
  pub history : List ℕ
  pub bets : List CasinoBet
  pub completed : Bool

abbrev pub write : PublicRoundState → RoundRun → RoundRun
write s r = record r { written = s ∷ r.written }

pub record Store : Type 0 where
  pub history : List ℕ
  pub bets : List CasinoBet

abbrev pub thrown : Store → RoundRun
thrown s = record { written = []; history = s.history; bets = s.bets; completed = false }

abbrev pub or_predicted : Option ℕ → ℕ → ℕ
or_predicted none predicted = predicted
or_predicted (some crash_x100) predicted = crash_x100

-- The draws of a round: its seed and the hashes, and its times.
pub record Draws : Type 0 where
  pub server_seed : ℕ
  pub keccak256 : ℕ → ℕ
  pub mix : ℕ → ℕ → ℕ
  pub waiting_since : ℕ
  pub started_at : ℕ

abbrev pub waiting_state : Draws → ℕ → PublicRoundState
waiting_state d id = record {
  id = id;
  status = waiting;
  server_seed_hash = d.keccak256 d.server_seed;
  waiting_since = d.waiting_since;
  started_at = none;
  crash_multiplier_x100 = none;
  server_seed = none;
}

abbrev pub running_state : Draws → ℕ → PublicRoundState
running_state d id = record (waiting_state d id) {
  status = running;
  started_at = some d.started_at;
}

abbrev pub crashed_state : Draws → ℕ → ℕ → PublicRoundState
crashed_state d id crash_x100 = record (running_state d id) {
  status = crashed;
  crash_multiplier_x100 = some crash_x100;
  server_seed = some d.server_seed;
}

module _ {Log : Type 0} (decode : Log → Option CrashEvent) (game : CrashGame Log) (d : Draws) where
  -- From the receipt of resolveRound on.
  abbrev pub finish_round : Store → ℕ → ℕ → Option (RoundReceipt Log) → RoundRun
  finish_round s id predicted none = thrown s
  finish_round s id predicted (some receipt) =
      let crash_x100 = or_predicted (decode_resolved_crash decode receipt.logs id) predicted in
      record {
        written = crashed_state d id crash_x100 ∷ [];
        history = push_history crash_x100 s.history;
        bets = reconcile_pending_bets id crash_x100 (decode_payouts decode receipt.logs) s.bets;
        completed = true;
      }

  -- From the reads of the rate and of the stakes on.
  abbrev pub fly : Store → ℕ → Option ℕ → Option ℕ → RoundRun
  fly s id none staked = thrown s
  fly s id (some rtp_bps) none = thrown s
  fly s id (some rtp_bps) (some staked) =
      finish_round s id (onchain_crash_multiplier_x100 d.mix d.server_seed id rtp_bps (staked == 0))
        (game.resolve_round id d.server_seed)

  abbrev pub fly_from : Store → ℕ → Option (RoundReceipt Log) → RoundRun
  fly_from s id none = thrown s
  fly_from s id (some receipt) =
      write (running_state d id) (fly s id game.rtp_bps (game.total_staked id))

  -- From the wait on.
  unfoldable pub lock_and_fly : Store → ℕ → RoundRun
  lock_and_fly s id = fly_from s id (game.lock_round id)

  abbrev pub wait_from : Store → Option ℕ → RoundRun
  wait_from s none = thrown s
  wait_from s (some id) = write (waiting_state d id) (lock_and_fly s id)

  abbrev pub start_from : Store → Option (RoundReceipt Log) → RoundRun
  start_from s none = thrown s
  start_from s (some receipt) = wait_from s (decode_round_id decode receipt.logs)

  unfoldable pub run_round : Store → RoundRun
  run_round s = start_from s (game.start_round (d.keccak256 d.server_seed))

pub data Cancellation : Type 0 where
  cancel_pending_round cancel_stuck_round : Cancellation

abbrev pub round_timeout_seconds : ℕ
round_timeout_seconds = 1_800

-- `rounds(currentRoundId)`: 0 is Pending, 1 is Running.
pub record CurrentRound : Type 0 where
  pub id : ℕ
  pub status : ℕ
  pub started_at : ℕ

-- Which cancellation a round that was found at the start of the worker needs.
unfoldable pub cancellation_of : ℕ → CurrentRound → Option Cancellation
cancellation_of now r =
    if r.id == 0
    then none
    else if r.status == 0
    then some cancel_pending_round
    else if r.status == 1 && ltb 0 r.started_at
    then (if ltb (r.started_at + round_timeout_seconds) now then some cancel_stuck_round else none)
    else none

-- `cancelAndReconcile`: whether the call comes back with a receipt, of which nothing is read.
abbrev pub cancel_and_reconcile :
    (Cancellation → ℕ → Bool) → ℕ → Option Cancellation → List CasinoBet → List CasinoBet
cancel_and_reconcile cancels id none bets = bets
cancel_and_reconcile cancels id (some c) bets =
    if cancels c id then reconcile_cancelled_bets id bets else bets

-- `recoverStuckRounds`; a round that cannot be read is `none`, and errors are only logged.
unfoldable pub recover_stuck_rounds :
    (Cancellation → ℕ → Bool) → ℕ → Option CurrentRound → List CasinoBet → List CasinoBet
recover_stuck_rounds cancels now none bets = bets
recover_stuck_rounds cancels now (some r) bets =
    cancel_and_reconcile cancels r.id (cancellation_of now r) bets
