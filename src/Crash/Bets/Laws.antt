-- ===== src/Crash/Bets/Laws.antt =====
-- What a round makes of its bets, whatever the receipt holds.
use sportystake.Base.{
  ℕ, ◌+◌, ◌≤◌, ◌≡◌, refl, sym, subst, ◌⊎◌, inl, inr, false, List, [], ◌∷◌, any, All, sum_by, arith,
  if◌then◌else◌, Text, text_eq, to_lower, lookup, Bool-cases, text_eq-eq,
}
use sportystake.Crash.Bets.{
  CasinoBet, is_open, reconcile_cancelled_bets, or_zero, settle_bet, reconcile_pending_bets,
}

abbrev pub wallet_of : CasinoBet → Text
wallet_of b = to_lower b.wallet_address

-- No two open bets of the round are of one wallet.
abbrev pub HasOwnWallets : ℕ → List CasinoBet → Type 0
HasOwnWallets round_id [] = Unit
HasOwnWallets round_id (b ∷ bets) =
    ((is_open round_id b ≡ false)
      ⊎ All (λ c. (is_open round_id c ≡ false) ⊎ (text_eq (wallet_of b) (wallet_of c) ≡ false))
          bets)
    × HasOwnWallets round_id bets

abbrev pub total : List (Text × ℕ) → ℕ
total = sum_by (λ e. e.1)

module _ (round_id : ℕ) where
  -- What the open bets are paid out of the credits.
  abbrev share : List (Text × ℕ) → CasinoBet → ℕ
  share payouts b = if is_open round_id b then or_zero (lookup (wallet_of b) payouts) else 0

  share-absent :
      (k : Text) (a : ℕ) (payouts : List (Text × ℕ)) (bets : List CasinoBet)
      → All (λ c. (is_open round_id c ≡ false) ⊎ (text_eq k (wallet_of c) ≡ false)) bets
      → sum_by (share ((k, a) ∷ payouts)) bets ≡ sum_by (share payouts) bets
  share-absent k a payouts [] h = refl
  share-absent k a payouts (b ∷ bets) (other, others) =
      ground (arith, share-absent k a payouts bets others)

  share-entry :
      (k : Text) (a : ℕ) (payouts : List (Text × ℕ)) (bets : List CasinoBet)
      → HasOwnWallets round_id bets
      → sum_by (share ((k, a) ∷ payouts)) bets ≤ a + sum_by (share payouts) bets
  share-entry k a payouts [] h = omega arith
  share-entry k a payouts (b ∷ bets) (own, owns) =
      let rest = share-entry k a payouts bets owns in
      elim (Bool-cases (text_eq k (wallet_of b))) [
        | inr other ↦ ground (arith, rest, other)
        | inl same ↦
            let equal : k ≡ wallet_of b = text_eq-eq k (wallet_of b) same in
            elim own [
              | inl shut ↦ ground (arith, rest, shut)
              | inr others ↦
                  let absent = share-absent k a payouts bets (
                    subst
                      (λ x.
                        All (λ c. (is_open round_id c ≡ false) ⊎ (text_eq x (wallet_of c) ≡ false))
                          bets)
                      (sym equal) others) in
                  ground (arith, absent, same)
            ]
      ]

  share-none : (bets : List CasinoBet) → sum_by (share []) bets ≡ 0
  share-none [] = refl
  share-none (b ∷ bets) = ground (arith, share-none bets)

  share-total :
      (payouts : List (Text × ℕ)) (bets : List CasinoBet)
      → HasOwnWallets round_id bets
      → sum_by (share payouts) bets ≤ total payouts
  share-total [] bets h = omega (arith, share-none bets)
  share-total ((k, a) ∷ payouts) bets h =
      omega (arith, share-entry k a payouts bets h, share-total payouts bets h)

  booked :
      (x : ℕ) (payouts : List (Text × ℕ)) (bets : List CasinoBet)
      → sum_by (λ b. b.payout) (reconcile_pending_bets round_id x payouts bets)
        ≤ sum_by (λ b. b.payout) bets + sum_by (share payouts) bets
  unfolding reconcile_pending_bets settle_bet
  booked x payouts [] = omega arith
  booked x payouts (b ∷ bets) = ground (arith, booked x payouts bets)

  none_open :
      (x : ℕ) (payouts : List (Text × ℕ)) (bets : List CasinoBet)
      → any (is_open round_id) (reconcile_pending_bets round_id x payouts bets) ≡ false
  unfolding reconcile_pending_bets settle_bet
  none_open x payouts [] = refl
  none_open x payouts (b ∷ bets) = ground (arith, none_open x payouts bets)

  shut_settled :
      (x : ℕ) (payouts : List (Text × ℕ)) (bets : List CasinoBet)
      → any (is_open round_id) bets ≡ false
      → reconcile_pending_bets round_id x payouts bets ≡ bets
  unfolding reconcile_pending_bets
  shut_settled x payouts [] h = refl
  shut_settled x payouts (b ∷ bets) h =
      let rest = shut_settled x payouts bets (ground (arith, h)) in ground (arith, rest, h)

  shut_cancelled :
      (bets : List CasinoBet)
      → any (is_open round_id) bets ≡ false
      → reconcile_cancelled_bets round_id bets ≡ bets
  unfolding reconcile_cancelled_bets
  shut_cancelled [] h = refl
  shut_cancelled (b ∷ bets) h =
      let rest = shut_cancelled bets (ground (arith, h)) in ground (arith, rest, h)

  -- Where no two open bets of the round are of one wallet, settling the round books at most what the
  -- contract credited, and leaves no bet of the round open; neither settling it again, with whatever
  -- credits, nor cancelling it changes a bet then.
  pub reconcile_pending_bets_lem :
      (x : ℕ) (payouts : List (Text × ℕ)) (bets : List CasinoBet)
      → HasOwnWallets round_id bets
      → let settled = reconcile_pending_bets round_id x payouts bets in
        (sum_by (λ b. b.payout) settled ≤ sum_by (λ b. b.payout) bets + total payouts)
        × (any (is_open round_id) settled ≡ false)
        × ((x' : ℕ) (payouts' : List (Text × ℕ))
            → reconcile_pending_bets round_id x' payouts' settled ≡ settled)
        × (reconcile_cancelled_bets round_id settled ≡ settled)
  reconcile_pending_bets_lem x payouts bets own =
      let shut = none_open x payouts bets in
      (
        omega (arith, booked x payouts bets, share-total payouts bets own),
        shut,
        λ x' payouts'. shut_settled x' payouts' _ shut,
        shut_cancelled _ shut,
      )
