-- ===== src/BetSlip/Tests.antt =====
-- A slip of two selections, and the theorems on it.
use sportystake.Base.{ℕ, ◌≡◌, refl, false, [], ◌∷◌, arith, List}
use sportystake.BetSlip.{
  Operation, adds, removes, appends, loads, Selection, Slip, find_selection, add_selection,
}
use sportystake.BetSlip.Laws.{IsSingle, perform_all, perform_all-IsSingle}

abbrev pick : ℕ → ℕ → ℕ → Selection
pick m k s = record { match_id = m; market = k; selection = s; odds = 1_850; stake = 0 }

abbrev slip : Slip
slip = record { selections = pick 1 0 2 ∷ pick 2 0 1 ∷ []; is_open = false }

replaced : (add_selection (pick 1 0 0) slip).selections ≡ pick 1 0 0 ∷ pick 2 0 1 ∷ []
unfolding add_selection find_selection
replaced = refl

taken_off : (add_selection (pick 1 0 2) slip).selections ≡ pick 2 0 1 ∷ []
unfolding add_selection find_selection
taken_off = refl

slip-IsSingle : IsSingle slip.selections
slip-IsSingle m k = ground arith

abbrev some_operations : List Operation
some_operations =
    adds (pick 1 0 2)
    ∷ removes 2 0
    ∷ appends (pick 3 0 0 ∷ pick 1 0 1 ∷ [])
    ∷ loads (pick 4 0 0 ∷ [])
    ∷ adds (pick 1 0 1)
    ∷ []

perform_all-IsSingle_example : IsSingle (perform_all some_operations slip).selections
perform_all-IsSingle_example =
    perform_all-IsSingle some_operations slip (tt, (tt, (tt, ((λ m k. ground arith), (tt, tt)))))
      slip-IsSingle
