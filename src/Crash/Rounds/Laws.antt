-- ===== src/Crash/Rounds/Laws.antt =====
-- The course of a round, and what is public of it when.
use sportystake.Base.{
  ℕ, ◌+◌, ◌≡◌, refl, ◌⊎◌, false, not, ◌&&◌, ◌||◌, any, sum_by, ltb, if◌then◌else◌, inl, inr, Bool,
  true, Option, none, some, List, [], ◌∷◌, All, arith, ◌==◌, Option-cases,
}
use sportystake.Crash.Point.{onchain_crash_multiplier_x100}
use sportystake.Casino.Blackjack.Hand.{
  BetState, bet_pending, bet_won, bet_lost, bet_cancelled, bet_refunded,
}
use sportystake.Crash.Bets.{
  CasinoBet, is_pending, is_open, settle_bet, reconcile_pending_bets, reconcile_cancelled_bets,
}
use sportystake.Crash.Rounds.{
  crashed, push_history, CrashEvent, decode_round_id, decode_resolved_crash, decode_payouts,
  RoundReceipt, CrashGame, RoundRun, write, Store, thrown, or_predicted, Draws, waiting_state,
  running_state, crashed_state, fly, lock_and_fly, run_round, Cancellation, CurrentRound,
  cancellation_of, recover_stuck_rounds,
}

module _ {Log : Type 0} (decode : Log → Option CrashEvent) (game : CrashGame Log) (d : Draws)
    (s : Store) where
  -- The ways that a round takes.
  data Course (r : RoundRun) : Type 0 where
    not_started : r ≡ thrown s → Course r
    stopped_waiting : (id : ℕ) → r ≡ write (waiting_state d id) (thrown s) → Course r
    stopped_running :
        (id : ℕ)
        → (locked : RoundReceipt Log) × (game.lock_round id ≡ some locked)
        → r ≡ write (waiting_state d id) (write (running_state d id) (thrown s))
        → Course r
    crashes :
        (id predicted : ℕ) (started resolved : RoundReceipt Log)
        → game.start_round (d.keccak256 d.server_seed) ≡ some started
        → decode_round_id decode started.logs ≡ some id
        → game.resolve_round id d.server_seed ≡ some resolved
        → (let crash_x100 =
              or_predicted (decode_resolved_crash decode resolved.logs id) predicted in
            r ≡ record {
              written =
                  waiting_state d id ∷ running_state d id ∷ crashed_state d id crash_x100 ∷ [];
              history = push_history crash_x100 s.history;
              bets =
                  reconcile_pending_bets id crash_x100 (decode_payouts decode resolved.logs) s.bets;
              completed = true;
            })
        → Course r

  flight-Course :
      (id : ℕ) (started : RoundReceipt Log)
      → game.start_round (d.keccak256 d.server_seed) ≡ some started
      → decode_round_id decode started.logs ≡ some id
      → (locked : RoundReceipt Log) × (game.lock_round id ≡ some locked)
      → (rtp staked : Option ℕ)
      → Course (
          write
            (waiting_state d id)
            (write (running_state d id) (fly decode game d s id rtp staked)))
  flight-Course id started e q l none staked = stopped_running id l refl
  flight-Course id started e q l (some rtp) none = stopped_running id l refl
  flight-Course id started e q l (some rtp) (some staked) =
      elim (Option-cases (game.resolve_round id d.server_seed)) [
        | inl n ↦ stopped_running id l (rw n refl)
        | inr (resolved, h) ↦
            crashes id (onchain_crash_multiplier_x100 d.mix d.server_seed id rtp (staked == 0))
              started resolved e q h (rw h refl)
      ]

  run_round-Course : Course (run_round decode game d s)
  unfolding run_round lock_and_fly
  run_round-Course = elim (Option-cases (game.start_round (d.keccak256 d.server_seed))) [
    | inl n ↦ not_started (rw n refl)
    | inr (started, e) ↦ elim (Option-cases (decode_round_id decode started.logs)) [
      | inl n ↦ not_started (rw (e, n) refl)
      | inr (id, q) ↦ elim (Option-cases (game.lock_round id)) [
        | inl l ↦ stopped_waiting id (rw (e, q, l) refl)
        | inr (locked, l) ↦
            rw (e, q, l)
              (flight-Course id started e q (locked, l) game.rtp_bps (game.total_staked id))
      ]
    ]
  ]

  -- What is published at any time commits to the seed by its hash, and shows neither seed nor
  -- multiplier, until a receipt is there of the call that resolves the round with that seed, be
  -- it reverted or not.
  pub run_round-keeps_seed :
      All
        (λ w.
          (w.server_seed_hash ≡ d.keccak256 d.server_seed)
          × (((w.server_seed ≡ none) × (w.crash_multiplier_x100 ≡ none))
              ⊎ ((resolved : RoundReceipt Log) × (game.resolve_round w.id d.server_seed
                    ≡ some resolved)
                  × (w.server_seed ≡ some d.server_seed)
                  × (w.status ≡ crashed))))
        (run_round decode game d s).written
  run_round-keeps_seed = elim run_round-Course [
    | not_started e ↦ rw e tt
    | stopped_waiting id e ↦ rw e ((refl, inl (refl, refl)), tt)
    | stopped_running id l e ↦ rw e ((refl, inl (refl, refl)), ((refl, inl (refl, refl)), tt))
    | crashes id predicted started resolved a b h e ↦ rw e (
      (refl, inl (refl, refl)),
      ((refl, inl (refl, refl)), ((refl, inr (resolved, h, refl, refl)), tt)),
    )
  ]

-- The stakes of the bets of a kind.
abbrev pub stakes : (CasinoBet → Bool) → List CasinoBet → ℕ
stakes p = sum_by (λ b. if p b then b.amount else 0)

abbrev refunds : BetState → Bool
refunds bet_refunded = true
refunds _ = false

abbrev loses : BetState → Bool
loses bet_lost = true
loses _ = false

abbrev pub is_refunded : CasinoBet → Bool
is_refunded b = refunds b.status

abbrev pub is_lost : CasinoBet → Bool
is_lost b = loses b.status

is_pending-cases :
    (s : BetState) → (is_pending s ≡ false) ⊎ ((refunds s ≡ false) × (loses s ≡ false))
is_pending-cases bet_pending = inr (refl, refl)
is_pending-cases bet_won = inl refl
is_pending-cases bet_lost = inl refl
is_pending-cases bet_cancelled = inl refl
is_pending-cases bet_refunded = inl refl

cancelled_lem :
    (id : ℕ) (bets : List CasinoBet)
    → (any (is_open id) (reconcile_cancelled_bets id bets) ≡ false)
      × (stakes is_refunded (reconcile_cancelled_bets id bets)
          ≡ stakes is_refunded bets + stakes (is_open id) bets)
unfolding reconcile_cancelled_bets
cancelled_lem id [] = (refl, refl)
cancelled_lem id (b ∷ bets) =
    let (shut, more) = cancelled_lem id bets in
    let state = is_pending-cases b.status in ground (arith, shut, more, state)

lost_lem :
    (id x : ℕ) (bets : List CasinoBet)
    → (any (is_open id) (reconcile_pending_bets id x [] bets) ≡ false)
      × (stakes is_lost (reconcile_pending_bets id x [] bets)
          ≡ stakes is_lost bets + stakes (is_open id) bets)
unfolding reconcile_pending_bets settle_bet
lost_lem id x [] = (refl, refl)
lost_lem id x (b ∷ bets) =
    let (shut, more) = lost_lem id x bets in
    let state = is_pending-cases b.status in ground (arith, shut, more, state)

-- The rounds that need the recovery.
abbrev pub is_stuck : ℕ → CurrentRound → Bool
is_stuck now r =
    not (r.id == 0)
    && (r.status == 0 || (r.status == 1 && ltb 0 r.started_at && ltb (r.started_at + 1_800) now))

cancellation_of-is_stuck :
    (now : ℕ) (r : CurrentRound)
    → ((cancellation_of now r ≡ none) × (is_stuck now r ≡ false))
      ⊎ ((c : Cancellation) × (cancellation_of now r ≡ some c) × (is_stuck now r ≡ true))
unfolding cancellation_of
cancellation_of-is_stuck now r = elim (Option-cases (cancellation_of now r)) [
  | inl e ↦ inl (ground arith, ground arith)
  | inr (c, e) ↦ inr (c, ground arith, ground arith)
]

-- Where the calls that cancel come back with a receipt, which is not read: the recovery leaves no bet
-- of the current round open and refunds exactly the stakes of those that were, if there is a round and
-- it is pending, or running since a known time for longer than the timeout; it changes nothing
-- otherwise.
pub recover_stuck_rounds_lem :
    (cancels : Cancellation → ℕ → Bool) (now : ℕ) (r : CurrentRound) (bets : List CasinoBet)
    → ((c : Cancellation) → cancels c r.id ≡ true)
    → let after = recover_stuck_rounds cancels now (some r) bets in
      (any (is_open r.id) after ≡ (if is_stuck now r then false else any (is_open r.id) bets))
      × (stakes is_refunded after
          ≡ stakes is_refunded bets + (if is_stuck now r then stakes (is_open r.id) bets else 0))
      × ((is_stuck now r ≡ true) ⊎ (after ≡ bets))
unfolding recover_stuck_rounds
recover_stuck_rounds_lem cancels now r bets answers = elim (cancellation_of-is_stuck now r) [
  | inl (e, stuck) ↦ rw (e, stuck) (refl, omega arith, inr refl)
  | inr (c, e, stuck) ↦
      let (shut, more) = cancelled_lem r.id bets in rw (e, stuck, answers c) (shut, more, inl refl)
]

-- A call that resolves the round and that the contract reverts ends the round all the same: the
-- multiplier that the worker has computed goes to the history, and every open bet of the round is lost.
-- The other calls come back, and the round has started on the chain.
pub reverted_round :
    {Log : Type 0} (decode : Log → Option CrashEvent) (game : CrashGame Log) (d : Draws) (s : Store)
    (id rtp_bps staked : ℕ) (started locked : RoundReceipt Log)
    → game.start_round (d.keccak256 d.server_seed) ≡ some started
    → decode_round_id decode started.logs ≡ some id
    → game.lock_round id ≡ some locked
    → game.rtp_bps ≡ some rtp_bps
    → game.total_staked id ≡ some staked
    → game.resolve_round id d.server_seed ≡ some (record { succeeded = false; logs = [] })
    → let r = run_round decode game d s in
      (r.completed ≡ true)
      × (any (is_open id) r.bets ≡ false)
      × (stakes is_lost r.bets ≡ stakes is_lost s.bets + stakes (is_open id) s.bets)
      × (r.history
          ≡ push_history
              (onchain_crash_multiplier_x100 d.mix d.server_seed id rtp_bps (staked == 0))
              s.history)
unfolding run_round lock_and_fly decode_resolved_crash decode_payouts
reverted_round decode game d s id rtp_bps staked started locked a b c e f g =
    let x = onchain_crash_multiplier_x100 d.mix d.server_seed id rtp_bps (staked == 0) in
    let (shut, more) = lost_lem id x s.bets in rw (a, b, c, e, f, g) (refl, shut, more, refl)
