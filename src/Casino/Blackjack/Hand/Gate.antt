-- ===== src/Casino/Blackjack/Hand/Gate.antt =====
-- What the gate on the bonus of a natural blackjack promises.
use sportystake.Base.{ℕ, ◌+◌, ◌*◌, ◌/◌, ◌≤◌, ◌<◌, ◌≡◌, ◌⊎◌, inl, inr, ◌↔◌, List, arith}
use sportystake.Casino.Blackjack.{
  player_blackjack, push_outcome, player_win, dealer_win, evaluate_hand,
}
use sportystake.Casino.Blackjack.Hand.{gated_multiplier, payout_for}

-- An evaluated hand has one of four multipliers.
evaluate_hand-cases :
    (player dealer : List ℕ)
    → let e = evaluate_hand player dealer in
      (e ≡ record { outcome = player_blackjack; multiplier = 250 })
      ⊎ (e ≡ record { outcome = push_outcome; multiplier = 100 })
      ⊎ (e ≡ record { outcome = player_win; multiplier = 200 })
      ⊎ (e ≡ record { outcome = dealer_win; multiplier = 0 })
unfolding evaluate_hand
evaluate_hand-cases player dealer = ground arith

-- The gate lowers the multiplier of a natural blackjack only, to that of another win, and only if the
-- house cannot pay the bonus; it leaves every win a win; and what is paid above an even win is within
-- the capacity.
pub gated_multiplier_lem :
    (stake capacity : ℕ) (player dealer : List ℕ)
    → let e = evaluate_hand player dealer in
      let m = gated_multiplier stake capacity e in
      ((m ≡ e.multiplier) ⊎ (e.outcome ≡ player_blackjack) × (m ≡ 200) × (capacity < stake * 3 / 2))
      × ((0 < m) ↔ (0 < e.multiplier))
      × ((m ≤ 200) ⊎ (payout_for stake m ≤ stake + capacity))
unfolding gated_multiplier payout_for
gated_multiplier_lem stake capacity player dealer = elim (evaluate_hand-cases player dealer) [
  | inl e ↦ rw e (ground arith)
  | inr (inl e) ↦ rw e (ground arith)
  | inr (inr (inl e)) ↦ rw e (ground arith)
  | inr (inr (inr e)) ↦ rw e (ground arith)
]
