-- ===== src/Tracking/Poller/Lock.antt =====
-- Calls of `run` that overlap: each call is one step in, if the guard lets it, and one step out.
use sportystake.Base.{
  ℕ, ◌+◌, ◌≤◌, ◌<◌, ◌≡◌, refl, true, false, List, [], ◌∷◌, ◌++◌, length, All, arith, ◌↔◌, sym, ap,
  subst, ◌∙◌, inl, inr, Bool-cases, if◌then◌else◌,
}
use sportystake.Tracking.Poller.{Guard, enters, enter, leave, stale_lock_ms}

-- The guard, and when the runs began that are not over.
pub record Job : Type 0 where
  pub guard : Guard
  pub active : List ℕ

abbrev pub idle : Job
idle = record { guard = record { running = false; running_since = 0 }; active = [] }

-- A run that is not over is younger than the limit for a stale lock.
abbrev IsTimely : ℕ → ℕ → Type 0
IsTimely now since = now < since + stale_lock_ms

-- A call that the guard lets in or turns away, where every run so far is timely, and the end of a run.
pub data Move (j : Job) : Job → Type 0 where
  goes_on :
      (now : ℕ)
      → All (IsTimely now) j.active
      → enters now j.guard ≡ true
      → Move j (record { guard = enter now; active = now ∷ j.active })
  is_skipped : (now : ℕ) → enters now j.guard ≡ false → Move j j
  ends :
      (before : List ℕ) (since : ℕ) (after : List ℕ)
      → j.active ≡ before ++ (since ∷ after)
      → Move j (record { guard = leave j.guard; active = before ++ after })

pub data Reach : Job → Type 0 where
  start : Reach idle
  later : {j k : Job} → Reach j → Move j k → Reach k

-- The lock is held exactly while one run is under way, and by that run.
abbrev IsLocked : Job → Type 0
IsLocked j = j.active ≡ (if j.guard.running then j.guard.running_since ∷ [] else [])

not_empty : (xs : List ℕ) (a : ℕ) (ys : List ℕ) → xs ++ (a ∷ ys) ≡ [] → ⊥
not_empty [] a ys e = cc
not_empty (x ∷ xs) a ys e = cc

only_one : (xs : List ℕ) (a : ℕ) (ys : List ℕ) (b : ℕ) → xs ++ (a ∷ ys) ≡ b ∷ [] → xs ++ ys ≡ []
only_one [] a ys b e = cc
only_one (x ∷ xs) a ys b e = let rest : xs ++ (a ∷ ys) ≡ [] = cc in absurd (not_empty xs a ys rest)

Move-IsLocked : {j k : Job} → Move j k → IsLocked j → IsLocked k
unfolding enters
Move-IsLocked {j} (goes_on now timely e) h = elim (Bool-cases j.guard.running) [
  | inl r ↦
      let held : j.active ≡ j.guard.running_since ∷ [] = h ∙ rw r refl in
      let young : now < j.guard.running_since + stale_lock_ms =
        (subst (All (IsTimely now)) held timely).0 in
      ground (arith, young, r)
  | inr r ↦ let none_held : j.active ≡ [] = h ∙ rw r refl in ap (◌∷◌ now) none_held
]
Move-IsLocked (is_skipped now e) h = h
Move-IsLocked {j} (ends before since after e) h = elim (Bool-cases j.guard.running) [
  | inl r ↦
      let held : before ++ (since ∷ after) ≡ j.guard.running_since ∷ [] = sym e ∙ h ∙ rw r refl in
      only_one before since after j.guard.running_since held
  | inr r ↦
      let held : before ++ (since ∷ after) ≡ [] = sym e ∙ h ∙ rw r refl in
      absurd (not_empty before since after held)
]

Reach-IsLocked : {j : Job} → Reach j → IsLocked j
Reach-IsLocked start = refl
Reach-IsLocked (later r m) = Move-IsLocked m (Reach-IsLocked r)

-- As long as every run is over before its lock counts as stale, no two runs are ever under way
-- together, and the lock is held exactly while one is.
pub runs_alone :
    {j : Job} → Reach j → (length j.active ≤ 1) × ((j.guard.running ≡ true) ↔ (0 < length j.active))
runs_alone {j} r =
    let h = Reach-IsLocked r in
    elim (Bool-cases j.guard.running) [
      | inl e ↦
          let held : j.active ≡ j.guard.running_since ∷ [] = h ∙ rw e refl in
          ground (arith, held, e)
      | inr e ↦ let none_held : j.active ≡ [] = h ∙ rw e refl in ground (arith, none_held, e)
    ]
