-- ===== src/BetSlip.antt =====
-- The bet slip (src/lib/betSlipStore.ts). Matches, markets and outcomes are only compared, so they
-- are numbers; a stake is a natural number. The saving to the server is left out.
pub mod Laws
mod Tests
use sportystake.Base.{
  ℕ, ◌+◌, Bool, true, false, not, ◌&&◌, ◌||◌, Option, none, some, List, [], ◌∷◌, ◌++◌, map, foldl,
  ◌==◌, if◌then◌else◌, select, any,
}

pub record Selection : Type 0 where
  pub match_id : ℕ
  pub market : ℕ
  pub selection : ℕ
  pub odds : ℕ
  pub stake : ℕ

pub record Slip : Type 0 where
  pub selections : List Selection
  pub is_open : Bool

abbrev pub same_market : ℕ → ℕ → Selection → Bool
same_market match_id market s = s.match_id == match_id && s.market == market

-- `selections.find(…)`
unfoldable pub find_selection : ℕ → ℕ → List Selection → Option Selection
find_selection match_id market [] = none
find_selection match_id market (s ∷ ss) =
    let rest = find_selection match_id market ss in
    if same_market match_id market s then some s else rest

abbrev pub without_market : ℕ → ℕ → List Selection → List Selection
without_market match_id market = select (λ s. not (same_market match_id market s))

-- `{ ...s, stake: sel.stake }` on the selections of the market of `s`
abbrev pub replace_keeping_stake : Selection → Selection → Selection
replace_keeping_stake s sel =
    if same_market s.match_id s.market sel then record s { stake = sel.stake } else sel

-- By the selection that is there in the market.
abbrev pub add_to : Selection → Option Selection → List Selection → List Selection
add_to s none ss = ss ++ record s { stake = 0 } ∷ []
add_to s (some existing) ss =
    if existing.selection == s.selection
    then without_market s.match_id s.market ss
    else map (replace_keeping_stake s) ss

-- `addSelection`; the stake of the argument is not read
unfoldable pub add_selection : Selection → Slip → Slip
add_selection s slip = record slip {
  selections = add_to s (find_selection s.match_id s.market slip.selections) slip.selections;
}

unfoldable pub remove_selection : ℕ → ℕ → Slip → Slip
remove_selection match_id market slip = record slip {
  selections = without_market match_id market slip.selections;
}

abbrev pub set_stake : ℕ → ℕ → ℕ → Selection → Selection
set_stake match_id market stake s =
    if same_market match_id market s then record s { stake = stake } else s

unfoldable pub update_stake : ℕ → ℕ → ℕ → Slip → Slip
update_stake match_id market stake slip = record slip {
  selections = map (set_stake match_id market stake) slip.selections;
}

unfoldable pub clear_all : Slip → Slip
clear_all slip = record slip { selections = [] }

unfoldable pub toggle : Slip → Slip
toggle slip = record slip { is_open = not slip.is_open }

-- `merged[idx].stake || ns.stake || 0`
abbrev pub first_stake : ℕ → ℕ → ℕ
first_stake a b = if a == 0 then b else a

-- One round of the loop of `appendSelections`: the first selection in the market is replaced, or the
-- new one goes to the end.
unfoldable pub merge_selection : List Selection → Selection → List Selection
merge_selection [] ns = ns ∷ []
merge_selection (s ∷ ss) ns =
    let rest = merge_selection ss ns in
    if same_market ns.match_id ns.market s
    then record ns { stake = first_stake s.stake ns.stake } ∷ ss
    else s ∷ rest

unfoldable pub append_selections : List Selection → Slip → Slip
unfolding merge_selection
append_selections news slip = record {
  selections = foldl merge_selection slip.selections news;
  is_open = true;
}

-- `selections.map((s) => ({ ...s, stake: s.stake || 0 }))`, which keeps what stands there
unfoldable pub load_selections : List Selection → Slip → Slip
load_selections news slip = record { selections = news; is_open = true }

-- What the server has; `none` where the request fails
unfoldable pub load_from_server : Option (List Selection) → Slip → Slip
load_from_server none slip = slip
load_from_server (some stored) slip = record slip { selections = stored }

-- The operations of the store.
pub data Operation : Type 0 where
  adds : Selection → Operation
  removes : ℕ → ℕ → Operation
  stakes : ℕ → ℕ → ℕ → Operation
  clears toggles : Operation
  appends loads : List Selection → Operation
  fetches : Option (List Selection) → Operation

abbrev pub perform : Operation → Slip → Slip
perform (adds s) = add_selection s
perform (removes match_id market) = remove_selection match_id market
perform (stakes match_id market stake) = update_stake match_id market stake
perform clears = clear_all
perform toggles = toggle
perform (appends news) = append_selections news
perform (loads news) = load_selections news
perform (fetches stored) = load_from_server stored

unfoldable pub has_selection : ℕ → ℕ → Option ℕ → Slip → Bool
has_selection match_id market none slip = any (same_market match_id market) slip.selections
has_selection match_id market (some selection) slip =
    any (λ s. same_market match_id market s && s.selection == selection) slip.selections
