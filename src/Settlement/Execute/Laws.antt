-- ===== src/Settlement/Execute/Laws.antt =====
-- What a settlement run promises.
use sportystake.Base.{
  ℕ, ◌≡◌, refl, ◌∙◌, List, map, arith, elem-count, All, All-zip, map_congr_All, Bool-cases,
  Option-cases, inl, inr, IsUnique, ltb, length,
}
use sportystake.Settlement.Tables.{Bet}
use sportystake.Settlement.Plan.{Plan, plan_score_based_settlement}
use sportystake.Settlement.Execute.{
  TxResult, mined, failed, Chain, Db, void_bets, is_settle_skip, max_settle_batch, after_settle,
  reconcile_tables, Executed, settled, threw, execute_market_settlement,
}
use sportystake.Settlement.Execute.Final.{
  bet_key, IsListed, plan_lists, settle_bet, reconcile_bet, reconcile_bet-listed,
  reconcile_settlement-map,
}
use sportystake.Settlement.Execute.Voids.{
  IsSafe, Absorbs, reconcile_bet-Absorbs, settle_bet-Absorbs, void_bets-Kept, All-elem,
}

module _ (market home away outcome : ℕ) (db : Db) (unique : IsUnique bet_key db.bets) where
  abbrev planned : Plan
  planned = plan_score_based_settlement market home away db.bets

  listed-IsSafe :
      (b : Bet)
      → IsListed market home away db.bets unique b
      → IsSafe market planned.voided_bet_ids b
  listed-IsSafe b (e, f) = ground (arith, elem-count b.id planned.voided_bet_ids)

  reconciled-settle_bet :
      map (reconcile_bet market planned.winning_bet_ids planned.voided_bet_ids) db.bets
      ≡ map (settle_bet market home away) db.bets
  reconciled-settle_bet = map_congr_All _ _ db.bets (
      All-zip (λ b l _. reconcile_bet-listed market home away db.bets unique b l) db.bets
        (plan_lists market home away db.bets unique) (plan_lists market home away db.bets unique))

  -- What a run leaves of the bets, by how it ended.
  abbrev pub Final : Executed → Type 0
  Final (settled db' hash hashes) = db'.bets ≡ map (settle_bet market home away) db.bets
  Final (threw db') =
      map (settle_bet market home away) db'.bets ≡ map (settle_bet market home away) db.bets

  voids_keep :
      (F : Bet → Bet)
      → Absorbs market planned.voided_bet_ids F
      → (tx : ℕ → TxResult) → map F (void_bets tx planned.voided_bet_ids db.bets).0 ≡ map F db.bets
  voids_keep F absorbs tx =
      (void_bets-Kept market planned.voided_bet_ids F absorbs tx planned.voided_bet_ids db.bets
        (All-elem planned.voided_bet_ids)
        (All-zip (λ b l _. listed-IsSafe b l) db.bets lists lists)).0
    where
      lists : All (IsListed market home away db.bets unique) db.bets
      lists = plan_lists market home away db.bets unique

  reconcile_tables-bets :
      (db' : Db)
      → map (reconcile_bet market planned.winning_bet_ids planned.voided_bet_ids) db'.bets
        ≡ map (reconcile_bet market planned.winning_bet_ids planned.voided_bet_ids) db.bets
      → (reconcile_tables market outcome planned db').bets
        ≡ map (settle_bet market home away) db.bets
  unfolding reconcile_tables
  reconcile_tables-bets db' same = elim (Option-cases planned.scores) [
    | inl e ↦ rw e (reconcile_settlement-map market _ _ db'.bets ∙ same ∙ reconciled-settle_bet)
    | inr (s, e) ↦
        rw e (reconcile_settlement-map market _ _ db'.bets ∙ same ∙ reconciled-settle_bet)
  ]

  after_settle-Final :
      (hashes : List ℕ) (db' : Db) (tx : TxResult)
      → map (reconcile_bet market planned.winning_bet_ids planned.voided_bet_ids) db'.bets
        ≡ map (reconcile_bet market planned.winning_bet_ids planned.voided_bet_ids) db.bets
      → map (settle_bet market home away) db'.bets ≡ map (settle_bet market home away) db.bets
      → Final (after_settle market outcome planned hashes db' tx)
  after_settle-Final hashes db' (mined hash) same kept = reconcile_tables-bets db' same
  after_settle-Final hashes db' (failed message) same kept =
      elim (Bool-cases (is_settle_skip message)) [
        | inl e ↦ rw e (reconcile_tables-bets db' same)
        | inr e ↦ rw e kept
      ]

  -- If bet ids are unique: whatever the chain answers, a run that returns leaves on the market every
  -- bet that was not paid out with the status of its own verdict (won, cancelled for a push, lost
  -- for a lost or an unsupported one) and every other bet untouched; and a run that throws leaves a
  -- table from which settling the bets one by one gives the same result as before the run.
  pub execute_market_settlement-Final :
      (chain : Chain) → Final (execute_market_settlement chain market outcome planned db)
  unfolding execute_market_settlement
  execute_market_settlement-Final chain = elim (Bool-cases chain.configured) [
    | inr e ↦ rw e (reconcile_tables-bets db refl)
    | inl e ↦ elim (Bool-cases (ltb max_settle_batch (length planned.winning_bet_ids))) [
      | inl big ↦ rw (e, big) (voids_keep _ (settle_bet-Absorbs market home away _) chain.void_bet)
      | inr small ↦
          rw (e, small)
            (after_settle-Final _ _ chain.settle_market
              (voids_keep _ (reconcile_bet-Absorbs market _ _) chain.void_bet)
              (voids_keep _ (settle_bet-Absorbs market home away _) chain.void_bet))
    ]
  ]
