-- ===== src/Settlement/Tables.antt =====
-- The rows of the bet table that settlement reads and writes, and the status updates of
-- src/lib/server/repos/bets.repo.ts. Ids are only compared, so they are numbers; the columns that
-- settlement does not read, and the time stamps, are left out. `updateMany` of the database library
-- changes every row that its filter selects, and returns how many those are.
use sportystake.Base.{
  ℕ, ◌+◌, Bool, true, false, not, ◌&&◌, ◌||◌, List, [], ◌∷◌, map, ◌==◌, if◌then◌else◌, Text, elem,
  select,
}

pub data BetStatus : Type 0 where
  pending won lost cancelled claimed refunded : BetStatus

pub record Bet : Type 0 where
  pub id : ℕ
  pub market_id : ℕ
  pub market_type : Text
  pub outcome : ℕ
  pub selection_label : Text
  pub potential_payout : ℕ
  pub status : BetStatus

abbrev pub is_pending : BetStatus → Bool
is_pending pending = true
is_pending _ = false

abbrev pub is_claimed : BetStatus → Bool
is_claimed claimed = true
is_claimed _ = false

abbrev pub is_cancelled : BetStatus → Bool
is_cancelled cancelled = true
is_cancelled _ = false

-- `status in ["CLAIMED", "REFUNDED"]`
abbrev pub is_paid_out : BetStatus → Bool
is_paid_out claimed = true
is_paid_out refunded = true
is_paid_out _ = false

abbrev pub set_to : BetStatus → Bet → Bet
set_to s b = record b { status = s }

abbrev pub update_where : (Bet → Bool) → BetStatus → Bet → Bet
update_where p s b = if p b then set_to s b else b

-- `prisma.bet.updateMany`: the rows, and how many the filter selects
abbrev pub update_many : (Bet → Bool) → BetStatus → List Bet → List Bet × ℕ
update_many p s [] = ([], 0)
update_many p s (b ∷ bs) =
    let (rest, n) = update_many p s bs in (update_where p s b ∷ rest, (if p b then 1 else 0) + n)

-- `BetsRepo.pendingByMarket`
unfoldable pub pending_by_market : ℕ → List Bet → List Bet
pending_by_market market = select (λ b. b.market_id == market && is_pending b.status)

-- `BetsRepo.setStatus`, by the primary key
unfoldable pub set_status : ℕ → BetStatus → List Bet → List Bet
set_status bet s = map (update_where (λ b. b.id == bet) s)

-- The filters of the three updates of `BetsRepo.reconcileSettlement`.
abbrev pub is_winner : List ℕ → Bet → Bool
is_winner winning b = elem b.id winning && not (is_claimed b.status)

abbrev pub is_voided : List ℕ → Bet → Bool
is_voided voided b = elem b.id voided && not (is_paid_out b.status)

abbrev pub is_loser : ℕ → List ℕ → List ℕ → Bet → Bool
is_loser market winning voided b =
    b.market_id == market
    && not (is_paid_out b.status)
    && not (elem b.id winning || elem b.id voided)

pub record Reconciled : Type 0 where
  pub won_count : ℕ
  pub voided_count : ℕ
  pub lost_count : ℕ

-- `BetsRepo.reconcileSettlement`: the three updates of one transaction, in order
unfoldable pub reconcile_settlement : ℕ → List ℕ → List ℕ → List Bet → List Bet × Reconciled
reconcile_settlement market winning voided bets =
    let (bets1, n) = update_many (is_winner winning) won bets in
    let (bets2, m) = update_many (is_voided voided) cancelled bets1 in
    let (bets3, k) = update_many (is_loser market winning voided) lost bets2 in
    (bets3, record { won_count = n; voided_count = m; lost_count = k })

-- `BetsRepo.cancelMarketBets`
unfoldable pub cancel_market_bets : ℕ → List Bet → List Bet × ℕ
cancel_market_bets market =
    update_many (λ b. b.market_id == market && is_pending b.status) cancelled
