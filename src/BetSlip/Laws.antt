-- ===== src/BetSlip/Laws.antt =====
-- What the bet slip keeps.
use sportystake.Base.{
  ap, ℕ, ◌≤◌, ◌≡◌, refl, ◌⊎◌, inl, inr, true, false, ◌&&◌, ◌||◌, none, some, List, [], ◌∷◌, ◌++◌,
  map, foldl, arith, ◌==◌, if◌then◌else◌, any, sum_by, sum_by-append, Bool-cases, Option-cases, All,
}
use sportystake.BetSlip.{
  Operation, adds, removes, stakes, clears, toggles, appends, loads, fetches, perform,
  load_selections, load_from_server, clear_all, toggle, Selection, Slip, same_market,
  find_selection, without_market, replace_keeping_stake, add_to, add_selection, remove_selection,
  set_stake, update_stake, merge_selection, append_selections, has_selection,
}

abbrev pub in_market : ℕ → ℕ → List Selection → ℕ
in_market m k = sum_by λ s. if same_market m k s then 1 else 0

-- A market has one selection at most.
abbrev pub IsSingle : List Selection → Type 0
IsSingle ss = (m k : ℕ) → in_market m k ss ≤ 1

find_selection-none :
    (m k : ℕ) (ss : List Selection) → find_selection m k ss ≡ none → in_market m k ss ≡ 0
unfolding find_selection
find_selection-none m k [] e = refl
find_selection-none m k (s ∷ ss) e =
    let rest = find_selection-none m k ss in
    elim (Bool-cases (same_market m k s)) [ inl h ↦ ground (arith, e) | inr h ↦ ground (arith, e) ]

without_market-in_market :
    (m k m' k' : ℕ) (ss : List Selection)
    → in_market m k (without_market m' k' ss) ≡ (if m == m' && k == k' then 0 else in_market m k ss)
without_market-in_market m k m' k' [] = ground arith
without_market-in_market m k m' k' (s ∷ ss) =
    let rest = without_market-in_market m k m' k' ss in ground arith

replace-in_market :
    (m k : ℕ) (s : Selection) (ss : List Selection)
    → in_market m k (map (replace_keeping_stake s) ss) ≡ in_market m k ss
replace-in_market m k s [] = refl
replace-in_market m k s (x ∷ ss) = let rest = replace-in_market m k s ss in ground arith

set_stake-in_market :
    (m k m' k' stake : ℕ) (ss : List Selection)
    → in_market m k (map (set_stake m' k' stake) ss) ≡ in_market m k ss
set_stake-in_market m k m' k' stake [] = refl
set_stake-in_market m k m' k' stake (x ∷ ss) =
    let rest = set_stake-in_market m k m' k' stake ss in ground arith

merge-in_market :
    (m k : ℕ) (ss : List Selection) (ns : Selection)
    → (in_market m k (merge_selection ss ns) ≡ in_market m k ss)
      ⊎ (same_market m k ns ≡ true)
        × (in_market m k ss ≡ 0)
        × (in_market m k (merge_selection ss ns) ≡ 1)
unfolding merge_selection
merge-in_market m k [] ns = ground arith
merge-in_market m k (s ∷ ss) ns =
    let rest = merge-in_market m k ss ns in
    elim (Bool-cases (same_market ns.match_id ns.market s)) [
      | inl e ↦ ground (arith, e)
      | inr e ↦ ground (arith, e, rest)
    ]

merge-IsSingle : (news ss : List Selection) → IsSingle ss → IsSingle (foldl merge_selection ss news)
merge-IsSingle [] ss h = h
merge-IsSingle (ns ∷ news) ss h = merge-IsSingle news (merge_selection ss ns) λ m k.
    let here = h m k in
    elim (merge-in_market m k ss ns) [ inl e ↦ omega arith | inr (a, b, c) ↦ omega arith ]

add_to-IsSingle :
    (s : Selection) (ss : List Selection)
    → IsSingle ss
    → IsSingle (add_to s (find_selection s.match_id s.market ss) ss)
add_to-IsSingle s ss h m k =
    let here = h m k in
    elim (Option-cases (find_selection s.match_id s.market ss)) [
      | inl e ↦
          let absent = find_selection-none s.match_id s.market ss e in
          let added =
            sum_by-append {0} (λ x. if same_market m k x then 1 else 0) ss
              (record s { stake = 0 } ∷ []) in
          elim (Bool-cases (same_market m k s)) [
            | inr f ↦ rw e (ground (arith, added, f))
            | inl f ↦
                let same1 : m ≡ s.match_id = ground (arith, f) in
                let same2 : k ≡ s.market = ground (arith, f) in
                let absent' : in_market m k ss ≡ 0 = rw (same1, same2) absent in
                rw e (ground (arith, added, absent'))
          ]
      | inr (x, e) ↦ elim (Bool-cases (x.selection == s.selection)) [
        | inl f ↦ rw (e, f) (ground (arith, without_market-in_market m k s.match_id s.market ss))
        | inr f ↦ rw (e, f) (omega (arith, replace-in_market m k s ss))
      ]
    ]

-- A list that a store takes over as it is has one selection in a market at most.
abbrev pub IsFair : Operation → Type 0
IsFair (loads news) = IsSingle news
IsFair (fetches (some stored)) = IsSingle stored
IsFair _ = Unit

perform-IsSingle :
    (op : Operation) (slip : Slip)
    → IsFair op
    → IsSingle slip.selections
    → IsSingle (perform op slip).selections
unfolding add_selection remove_selection update_stake append_selections load_selections
    load_from_server clear_all toggle
perform-IsSingle (adds s) slip fair h = add_to-IsSingle s slip.selections h
perform-IsSingle (removes m k) slip fair h = λ m' k'.
    let here = h m' k' in ground (arith, without_market-in_market m' k' m k slip.selections)
perform-IsSingle (stakes m k stake) slip fair h = λ m' k'.
    let here = h m' k' in omega (arith, set_stake-in_market m' k' m k stake slip.selections)
perform-IsSingle clears slip fair h = λ m' k'. omega arith
perform-IsSingle toggles slip fair h = h
perform-IsSingle (appends news) slip fair h = merge-IsSingle news slip.selections h
perform-IsSingle (loads news) slip fair h = fair
perform-IsSingle (fetches none) slip fair h = h
perform-IsSingle (fetches (some stored)) slip fair h = fair

abbrev pub perform_all : List Operation → Slip → Slip
perform_all [] slip = slip
perform_all (op ∷ ops) slip = perform_all ops (perform op slip)

-- No sequence of operations gives a market a second selection, as long as the lists that are loaded
-- from the server or from a booking have none.
pub perform_all-IsSingle :
    (ops : List Operation) (slip : Slip)
    → All IsFair ops
    → IsSingle slip.selections
    → IsSingle (perform_all ops slip).selections
perform_all-IsSingle [] slip fair h = h
perform_all-IsSingle (op ∷ ops) slip (f, fair) h =
    perform_all-IsSingle ops (perform op slip) fair (perform-IsSingle op slip f h)

module _ (m k : ℕ) where
  find_selection-absent :
      (ss : List Selection) → any (same_market m k) ss ≡ false → find_selection m k ss ≡ none
  unfolding find_selection
  find_selection-absent [] e = refl
  find_selection-absent (x ∷ ss) e = elim (Bool-cases (same_market m k x)) [
    | inl f ↦ ground (arith, e, f)
    | inr f ↦ rw f (find_selection-absent ss (ground (arith, e, f)))
  ]

  find_selection-last :
      (ss : List Selection) (s : Selection)
      → any (same_market m k) ss ≡ false
      → same_market m k s ≡ true
      → (find_selection m k (ss ++ s ∷ []) ≡ some s) × (without_market m k (ss ++ s ∷ []) ≡ ss)
  unfolding find_selection
  find_selection-last [] s e g = rw g (refl, refl)
  find_selection-last (x ∷ ss) s e g = elim (Bool-cases (same_market m k x)) [
    | inl f ↦ ground (arith, e, f)
    | inr f ↦
        let (found, gone) = find_selection-last ss s (ground (arith, e, f)) g in
        rw f (found, ap (λ t. x ∷ t) gone)
  ]

-- A selection that is added twice to a slip with none in its market is taken off again.
pub add_selection_twice :
    (s : Selection) (slip : Slip)
    → has_selection s.match_id s.market none slip ≡ false
    → add_selection s (add_selection s slip) ≡ slip
unfolding add_selection has_selection
add_selection_twice s slip e =
    let s0 : Selection = record s { stake = 0 } in
    let itself : same_market s.match_id s.market s ≡ true = ground arith in
    let same : (s.selection == s.selection) ≡ true = ground arith in
    let before = find_selection-absent s.match_id s.market slip.selections e in
    let (found, gone) = find_selection-last s.match_id s.market slip.selections s0 e itself in
    rw (before, found, same, gone) refl

-- Removing takes exactly the selections of one market off the slip, and appending puts every market
-- of the new selections on it beside those that were there.
pub remove_append-has_selection :
    (m k m' k' : ℕ) (slip : Slip) (news : List Selection)
    → (has_selection m' k' none (remove_selection m k slip)
        ≡ (if m' == m && k' == k then false else has_selection m' k' none slip))
      × (has_selection m' k' none (append_selections news slip)
          ≡ (has_selection m' k' none slip || any (same_market m' k') news))
unfolding has_selection remove_selection append_selections merge_selection
remove_append-has_selection m k m' k' slip news =
    (without-any slip.selections, merge-any news slip.selections)
  where
    without-any :
        (ss : List Selection)
        → any (same_market m' k') (without_market m k ss)
          ≡ (if m' == m && k' == k then false else any (same_market m' k') ss)
    without-any [] = ground arith
    without-any (x ∷ ss) = let rest = without-any ss in ground arith

    merge_one-any :
        (ss : List Selection) (ns : Selection)
        → any (same_market m' k') (merge_selection ss ns)
          ≡ (any (same_market m' k') ss || same_market m' k' ns)
    merge_one-any [] ns = ground arith
    merge_one-any (x ∷ ss) ns =
        let rest = merge_one-any ss ns in
        elim (Bool-cases (same_market ns.match_id ns.market x)) [
          | inl e ↦ rw e (ground (arith, e))
          | inr e ↦ rw e (ground (arith, rest))
        ]

    merge-any :
        (news ss : List Selection)
        → any (same_market m' k') (foldl merge_selection ss news)
          ≡ (any (same_market m' k') ss || any (same_market m' k') news)
    merge-any [] ss = ground arith
    merge-any (ns ∷ news) ss =
        let one = merge_one-any ss ns in
        let rest = merge-any news (merge_selection ss ns) in ground (arith, one, rest)
