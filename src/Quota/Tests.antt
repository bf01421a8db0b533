-- ===== src/Quota/Tests.antt =====
-- A budget in its hour, and the theorems on it.
use sportystake.Base.{◌-◌, ◌≡◌, refl, false, arith, min, ℕ, List, length, ◌+◌, [], ◌∷◌}
use sportystake.Quota.{
  low, mode_for, Manager, is_allowed, record_request, can_make_request, reconcile_if_window_expired,
  count_request,
}
use sportystake.Quota.Laws.{Attempt, IsSound, spend, spend_lem, reserve}

abbrev tight : Manager
tight = record {
  remaining = 11;
  used = 89;
  reset_at = 3_600_000;
  current_mode = mode_for 11;
  recovery_probe_available = false;
}

abbrev at : ℕ → Attempt
at now = record { asked = now; answered = now + 2 }

abbrev four : List Attempt
four = at 5 ∷ at 9 ∷ at 60_000 ∷ at 3_599_990 ∷ []

low_requests : spend low four tight ≡ 2
unfolding can_make_request record_request reconcile_if_window_expired is_allowed count_request
low_requests = refl

tight-IsSound : IsSound tight
tight-IsSound = record { within = (omega arith, omega arith); covered = omega arith; mode = refl }

spend_lem_example : spend low four tight ≡ min (length four) (tight.remaining - reserve low)
spend_lem_example =
    spend_lem low four tight
      (
        (omega arith, omega arith),
        (
          (omega arith, omega arith),
          ((omega arith, omega arith), ((omega arith, omega arith), tt)),
        ),
      )
      refl
