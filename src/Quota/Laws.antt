-- ===== src/Quota/Laws.antt =====
-- What the budget promises.
use sportystake.Base.{
  ℕ, suc, ◌+◌, ◌-◌, ◌≤◌, ◌<◌, ◌≡◌, refl, ◌↔◌, ◌⊎◌, inl, inr, true, false, arith, ltb, if◌then◌else◌,
  min, List, [], ◌∷◌, All, length, Bool-cases,
}
use sportystake.Quota.{
  Priority, critical, high, low, mode_for, hourly_quota, hour, next_utc_hour, Manager,
  reconcile_if_window_expired, is_allowed, can_make_request, Header, no_number, below_zero, number,
  count_request, record_request,
}

-- The counters are within the quota, they add up to it or more, and the mode is that of what
-- remains.
pub record IsSound (m : Manager) : Type 0 where
  pub within : (m.remaining ≤ hourly_quota) × (m.used ≤ hourly_quota)
  pub covered : hourly_quota ≤ m.remaining + m.used
  pub mode : m.current_mode ≡ mode_for m.remaining

next_utc_hour-lt : (now : ℕ) → (now < next_utc_hour now) × (next_utc_hour now ≤ now + hour)
unfolding next_utc_hour
next_utc_hour-lt now = (omega arith, omega arith)

reconcile-IsSound :
    (now : ℕ) (m : Manager)
    → IsSound m
    → IsSound (reconcile_if_window_expired now m)
      × (now < (reconcile_if_window_expired now m).reset_at)
unfolding reconcile_if_window_expired mode_for
reconcile-IsSound now m s =
    let within = s.within in
    let covered = s.covered in
    let mode = s.mode in
    let (later, near) = next_utc_hour-lt now in
    elim (Bool-cases (ltb now m.reset_at)) [
      | inl e ↦ rw e (s, ground arith)
      | inr e ↦ rw e (
        record { within = (omega arith, omega arith); covered = omega arith; mode = refl },
        later,
      )
    ]

count_request-within :
    (header : Header) (m : Manager)
    → (m.remaining ≤ hourly_quota) × (m.used ≤ hourly_quota) × (hourly_quota ≤ m.remaining + m.used)
    → let m' = count_request header m in
      (m'.remaining ≤ hourly_quota)
      × (m'.used ≤ hourly_quota)
      × (hourly_quota ≤ m'.remaining + m'.used)
unfolding count_request
count_request-within no_number m h = ground arith
count_request-within below_zero m h = ground arith
count_request-within (number n) m h = ground arith

count_request-keeps :
    (header : Header) (m : Manager)
    → ((count_request header m).reset_at ≡ m.reset_at)
      × ((count_request header m).recovery_probe_available ≡ m.recovery_probe_available)
unfolding count_request
count_request-keeps no_number m = (refl, refl)
count_request-keeps below_zero m = (refl, refl)
count_request-keeps (number n) m = (refl, refl)

-- From sound counters, a recorded request leaves sound counters, in an hour that is not over, and no
-- probe.
pub record_request_lem :
    (now : ℕ) (header : Header) (m : Manager)
    → IsSound m
    → let m' = record_request now header m in
      IsSound m' × (now < m'.reset_at) × (m'.recovery_probe_available ≡ false)
unfolding record_request
record_request_lem now header m s =
    let (sound, later) = reconcile-IsSound now m s in
    let m1 = record (reconcile_if_window_expired now m) { recovery_probe_available = false } in
    let (in1, in2, in3) =
      count_request-within header m1 (sound.within.0, sound.within.1, sound.covered) in
    let (same, probe) = count_request-keeps header m1 in
    (record { within = (in1, in2); covered = in3; mode = refl }, omega (arith, later, same), probe)

-- A request of a lower priority is not allowed where one of a higher priority is refused, and what is
-- allowed is covered by the budget, but for the recovery probe.
pub is_allowed_lem :
    (m : Manager)
    → ((is_allowed low m ≡ false) ⊎ (is_allowed high m ≡ true))
      × ((is_allowed high m ≡ false) ⊎ (is_allowed critical m ≡ true))
      × ((is_allowed critical m ≡ true) ↔ (0 < m.remaining) ⊎ (m.recovery_probe_available ≡ true))
unfolding is_allowed
is_allowed_lem m = ground arith

-- What a priority leaves to those above it.
abbrev pub reserve : Priority → ℕ
reserve critical = 0
reserve high = 4
reserve low = 9

-- The times at which a request is asked for and its response is recorded.
pub record Attempt : Type 0 where
  pub asked : ℕ
  pub answered : ℕ

-- How many of the requests of one priority are made, where no response has the header.
abbrev pub spend : Priority → List Attempt → Manager → ℕ
spend p [] m = 0
spend p (t ∷ ts) m =
    let (allowed, m') = can_make_request t.asked p m in
    let made = spend p ts (record_request t.answered no_number m') in
    let refused = spend p ts m' in if allowed then suc made else refused

-- Both times are within the hour of the counters.
abbrev pub IsWithin : ℕ → Attempt → Type 0
IsWithin reset_at t = (t.asked < reset_at) × (t.answered < reset_at)

is_allowed-reserve :
    (p : Priority) (m : Manager)
    → m.recovery_probe_available ≡ false
    → is_allowed p m ≡ ltb (reserve p) m.remaining
unfolding is_allowed
is_allowed-reserve critical m e = ground arith
is_allowed-reserve high m e = ground arith
is_allowed-reserve low m e = ground arith

same_hour : (now : ℕ) (m : Manager) → now < m.reset_at → reconcile_if_window_expired now m ≡ m
unfolding reconcile_if_window_expired
same_hour now m h = let e : ltb now m.reset_at ≡ true = ground arith in rw e refl

-- Of any number of requests of one priority, at any times within the hour and one answered before the
-- next is asked for, exactly as many are made as the budget has above the reserve of the priority, if
-- there is no probe and no response has the header of what remains.
pub spend_lem :
    (p : Priority) (ts : List Attempt) (m : Manager)
    → All (IsWithin m.reset_at) ts
    → m.recovery_probe_available ≡ false
    → spend p ts m ≡ min (length ts) (m.remaining - reserve p)
unfolding can_make_request record_request count_request
spend_lem p [] m h e = omega arith
spend_lem p (t ∷ ts) m ((asked, answered), h) e =
    let stays = same_hour t.asked m asked in
    let stays' = same_hour t.answered m answered in
    let gate = is_allowed-reserve p m e in
    elim (Bool-cases (ltb (reserve p) m.remaining)) [
      | inr r ↦ let rest = spend_lem p ts m h e in rw (stays, gate, r) (ground (arith, rest))
      | inl a ↦
          let next : Manager = record m {
            remaining = m.remaining - 1;
            used = min hourly_quota (m.used + 1);
            recovery_probe_available = false;
            current_mode = mode_for (m.remaining - 1);
          } in
          let rest = spend_lem p ts next h refl in
          rw (stays, gate, a, stays') (ground (arith, rest))
    ]
