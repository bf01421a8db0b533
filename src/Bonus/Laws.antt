-- ===== src/Bonus/Laws.antt =====
-- What the welcome bonus promises.
use sportystake.Base.{
  sym, ℕ, ◌+◌, ◌*◌, ◌≤◌, ◌<◌, ◌≡◌, refl, ◌↔◌, ◌⊎◌, inl, inr, true, false, ◌&&◌, some, List, [], ◌∷◌,
  arith, ltb, leb, if◌then◌else◌, min, length, sum_by, Bool-cases, subst, All,
}
use sportystake.Bonus.{
  max_bonus_base_units, rollover_multiplier, BonusStatus, idle, active, completed, expired,
  forfeited, bonus_expiry_days, Account, is_idle, is_active, is_completed, qualifying_legs,
  evaluate_first_wager, is_past, valid_placement, validate_bonus_bet_placement, BonusBet,
  process_bonus_bet_settlement,
}

-- A bonus account: an active one has not reached its rollover, one that is over has no balance, and
-- the initial amount is within the cap.
pub record IsValid (a : Account) : Type 0 where
  pub capped : a.initial_bonus_amount ≤ max_bonus_base_units
  pub running :
      is_active a.bonus_status
        && leb (a.initial_bonus_amount * rollover_multiplier) a.bonus_rollover_wagered
      ≡ false
  pub over : (a.bonus_status ≡ active) ⊎ (a.bonus_balance ≡ 0)

is_idle-eq : (s : BonusStatus) → is_idle s ≡ true → s ≡ idle
is_idle-eq idle e = refl
is_idle-eq active e = cc
is_idle-eq completed e = cc
is_idle-eq expired e = cc
is_idle-eq forfeited e = cc

-- A first wager of a positive amount that is credited opens a valid account, active, with the amount
-- up to the cap as its balance and nothing wagered; and it had the odds and the legs that qualify.
pub evaluate_first_wager_lem :
    (now bets parlays amount odds : ℕ) (legs : List ℕ) (a a' : Account)
    → 0 < amount
    → evaluate_first_wager now bets parlays amount odds legs a ≡ some a'
    → IsValid a'
      × (a'.bonus_status ≡ active)
      × (a'.bonus_balance ≡ min amount max_bonus_base_units)
      × (a.bonus_status ≡ idle)
      × (2000 < odds)
      × (3 ≤ qualifying_legs legs)
unfolding evaluate_first_wager
evaluate_first_wager_lem now bets parlays amount odds legs a a' pos e =
    let amount' = if ltb max_bonus_base_units amount then max_bonus_base_units else amount in
    let opened : Account = record a {
      bonus_balance = amount';
      initial_bonus_amount = amount';
      bonus_rollover_wagered = 0;
      bonus_expires_at = some (now + bonus_expiry_days * 24 * 60 * 60 * 1000);
      bonus_status = active;
    } in
    let same : opened ≡ a' = ground (arith, e) in
    let idle_before : a.bonus_status ≡ idle = is_idle-eq a.bonus_status (ground (arith, e)) in
    subst
      (λ x.
        IsValid x
        × (x.bonus_status ≡ active)
        × (x.bonus_balance ≡ min amount max_bonus_base_units)
        × (a.bonus_status ≡ idle)
        × (2000 < odds)
        × (3 ≤ qualifying_legs legs))
      same
      (
        record { capped = ground arith; running = ground arith; over = inl refl },
        refl,
        ground arith,
        idle_before,
        ground (arith, e),
        ground (arith, e),
      )

-- A placement is valid exactly if the account is active and not past its time, the stake is positive
-- and within the balance, and the accumulator has ten legs, three of which qualify.
pub validate_bonus_bet_placement_iff :
    (now stake : ℕ) (legs : List ℕ) (a : Account)
    → (validate_bonus_bet_placement now stake legs a ≡ valid_placement)
      ↔ (is_active a.bonus_status ≡ true)
        × (is_past now a.bonus_expires_at ≡ false)
        × (0 < stake)
        × (stake ≤ a.bonus_balance)
        × (10 ≤ length legs)
        × (3 ≤ qualifying_legs legs)
unfolding validate_bonus_bet_placement
validate_bonus_bet_placement_iff now stake legs a = ground arith

is_active-eq : (s : BonusStatus) → is_active s ≡ true → s ≡ active
is_active-eq active e = refl
is_active-eq idle e = cc
is_active-eq completed e = cc
is_active-eq expired e = cc
is_active-eq forfeited e = cc

process-IsValid :
    (now : ℕ) (bet : BonusBet) (a : Account)
    → IsValid a
    → IsValid (process_bonus_bet_settlement now bet a)
unfolding process_bonus_bet_settlement
process-IsValid now bet a v =
    let capped = v.capped in
    let running = v.running in
    elim (Bool-cases (is_active a.bonus_status)) [
      | inr s ↦ rw s v
      | inl s ↦ elim (Bool-cases (is_past now a.bonus_expires_at)) [
        | inl p ↦ rw (s, p) (record { capped = capped; running = refl; over = inr refl })
        | inr p ↦
            elim (Bool-cases (
              leb (a.initial_bonus_amount * rollover_multiplier)
                (a.bonus_rollover_wagered + bet.stake))) [
                  | inl d ↦
                      rw (s, p, d) (record { capped = capped; running = refl; over = inr refl })
                  | inr d ↦
                      let same = is_active-eq a.bonus_status s in
                      rw (s, p, d)
                        (record { capped = capped; running = ground arith; over = inl same })
                ]
      ]
    ]

-- Settlements one after the other, each at its time.
abbrev pub process_all : List (ℕ × BonusBet) → Account → Account
process_all [] a = a
process_all ((now, bet) ∷ bets) a = process_all bets (process_bonus_bet_settlement now bet a)

abbrev pub staked : List (ℕ × BonusBet) → ℕ
staked = sum_by (λ b. b.1.stake)

closed_stays :
    (bets : List (ℕ × BonusBet)) (a : Account)
    → is_active a.bonus_status ≡ false
    → process_all bets a ≡ a
unfolding process_bonus_bet_settlement
closed_stays [] a e = refl
closed_stays ((now, bet) ∷ bets) a e = rw e (closed_stays bets a e)

-- From a valid account that is active, and where each settlement comes before the bonus expires: the
-- account stays valid through any settlements, with no balance once it is over, and it is completed
-- exactly if the stakes together reach ten times the initial amount.
pub process_all_lem :
    (bets : List (ℕ × BonusBet)) (a : Account)
    → IsValid a
    → is_active a.bonus_status ≡ true
    → All (λ b. is_past b.0 a.bonus_expires_at ≡ false) bets
    → IsValid (process_all bets a)
      × ((is_completed (process_all bets a).bonus_status ≡ true)
          ↔ (a.initial_bonus_amount * rollover_multiplier ≤ a.bonus_rollover_wagered + staked bets))
unfolding process_bonus_bet_settlement
process_all_lem [] a v s p =
    let running = v.running in
    let same = is_active-eq a.bonus_status s in (v, rw same (ground arith))
process_all_lem ((now, bet) ∷ bets) a v s (p, ps) =
    elim (Bool-cases
      (leb (a.initial_bonus_amount * rollover_multiplier) (a.bonus_rollover_wagered + bet.stake))) [
        | inl d ↦
            let c : Account = record a {
              bonus_balance = 0;
              bonus_rollover_wagered = a.bonus_rollover_wagered + bet.stake;
              bonus_status = completed;
            } in
            let there : process_all ((now, bet) ∷ bets) a ≡ c =
              rw (s, p, d) (closed_stays bets c refl) in
            subst
              (λ x.
                IsValid x
                × ((is_completed x.bonus_status ≡ true) ↔ (
                    a.initial_bonus_amount * rollover_multiplier
                    ≤ a.bonus_rollover_wagered + staked ((now, bet) ∷ bets))))
              (sym there)
              (record { capped = v.capped; running = refl; over = inr refl }, ground arith)
        | inr d ↦
            let balance = if bet.is_won then a.bonus_balance + bet.payout else a.bonus_balance in
            let c : Account = record a {
              bonus_balance = balance;
              bonus_rollover_wagered = a.bonus_rollover_wagered + bet.stake;
            } in
            let valid : IsValid c = record {
              capped = v.capped;
              running = ground arith;
              over = inl (is_active-eq a.bonus_status s);
            } in
            let (after, exact) = process_all_lem bets c valid s ps in
            rw (s, p, d) (after, ground (arith, exact))
      ]
