-- ===== src/Settlement/Plan/Content.antt =====
-- The content of a settlement plan, whatever the order of its loops: who wins, who is refunded and
-- what is paid are sums over the bets, each by its own verdict.
use mathlib.Core.List.{foldl}
use sportystake.Base.{
  ℕ, ◌+◌, ◌≡◌, refl, ◌≢◌, List, [], ◌∷◌, ◌++◌, arith, ◌==◌, if◌then◌else◌, Text, count,
  count-append, sum_by, sum_by-append, All,
}
use sportystake.Settlement.Outcome.{
  Verdict, win, lose, push, unsupported, resolve_double_chance_bet,
}
use sportystake.Settlement.Tables.{Bet}
use sportystake.Settlement.Plan.{
  Plan, Unresolved, add_winner, add_void, add_unresolved, apply_handicap, apply_double_chance,
  verdict,
}

-- A weight, counted for the bets with one id only.
abbrev pub at : ℕ → (Bet → ℕ) → Bet → ℕ
at i w b = if i == b.id then w b else 0

abbrev pub wins : Verdict → ℕ
wins win = 1
wins _ = 0

abbrev pub pushes : Verdict → ℕ
pushes push = 1
pushes _ = 0

abbrev pub paid : Verdict → ℕ → ℕ
paid win amount = amount
paid _ amount = 0

module _ (home away : ℕ) where
  -- The step from `p` to `p'` has dealt with just the bets `bs`.
  pub record Settles (p p' : Plan) (bs : List Bet) : Type 0 where
    pub winners :
        (i : ℕ)
        → count i p'.winning_bet_ids
          ≡ count i p.winning_bet_ids + sum_by (at i (λ b. wins (verdict home away b))) bs
    pub refunds :
        (i : ℕ)
        → count i p'.voided_bet_ids
          ≡ count i p.voided_bet_ids + sum_by (at i (λ b. pushes (verdict home away b))) bs
    pub payout :
        p'.total_payout
        ≡ p.total_payout + sum_by (λ b. paid (verdict home away b) b.potential_payout) bs

  pub Settles-refl : (p : Plan) → Settles p p []
  Settles-refl p = record {
    winners = λ i. omega arith;
    refunds = λ i. omega arith;
    payout = omega arith;
  }

  pub Settles-trans :
      (p q r : Plan) (xs ys : List Bet) → Settles p q xs → Settles q r ys → Settles p r (xs ++ ys)
  Settles-trans p q r xs ys f g = record {
    winners = λ i. omega (arith, f.winners i, g.winners i, sum_by-append {0} (at i won) xs ys);
    refunds = λ i. omega (arith, f.refunds i, g.refunds i, sum_by-append {0} (at i refunded) xs ys);
    payout = omega (arith, f.payout, g.payout, sum_by-append {0} pays xs ys);
  }
    where
      won : Bet → ℕ
      won b = wins (verdict home away b)

      refunded : Bet → ℕ
      refunded b = pushes (verdict home away b)

      pays : Bet → ℕ
      pays b = paid (verdict home away b) b.potential_payout

  -- One bet, by its verdict.
  pub Settles-win :
      (p : Plan) (b : Bet) → verdict home away b ≡ win → Settles p (add_winner p b) (b ∷ [])
  Settles-win p b e = record {
    winners = λ i. rw e (omega (arith, count-append i p.winning_bet_ids (b.id ∷ [])));
    refunds = λ i. rw e (ground arith);
    payout = rw e (omega arith);
  }

  Settles-push :
      (p : Plan) (b : Bet) → verdict home away b ≡ push → Settles p (add_void p b) (b ∷ [])
  Settles-push p b e = record {
    winners = λ i. rw e (ground arith);
    refunds = λ i. rw e (omega (arith, count-append i p.voided_bet_ids (b.id ∷ [])));
    payout = rw e (omega arith);
  }

  pub Settles-lose : (p : Plan) (b : Bet) → verdict home away b ≡ lose → Settles p p (b ∷ [])
  Settles-lose p b e = record {
    winners = λ i. rw e (ground arith);
    refunds = λ i. rw e (ground arith);
    payout = rw e (omega arith);
  }

  pub Settles-unsupported :
      (p : Plan) (b : Bet) (u : Unresolved)
      → verdict home away b ≡ unsupported
      → Settles p (add_unresolved p u) (b ∷ [])
  Settles-unsupported p b u e = record {
    winners = λ i. rw e (ground arith);
    refunds = λ i. rw e (ground arith);
    payout = rw e (omega arith);
  }

  pub apply_handicap-Settles :
      (p : Plan) (b : Bet) (v : Verdict)
      → verdict home away b ≡ v
      → Settles p (apply_handicap p b v) (b ∷ [])
  apply_handicap-Settles p b win e = Settles-win p b e
  apply_handicap-Settles p b lose e = Settles-lose p b e
  apply_handicap-Settles p b push e = Settles-push p b e
  apply_handicap-Settles p b unsupported e = Settles-unsupported p b _ e

  pub apply_double_chance-Settles :
      (p : Plan) (b : Bet) (v : Verdict)
      → v ≢ push
      → verdict home away b ≡ v
      → Settles p (apply_double_chance p b v) (b ∷ [])
  apply_double_chance-Settles p b win h e = Settles-win p b e
  apply_double_chance-Settles p b lose h e = Settles-lose p b e
  apply_double_chance-Settles p b push h e = absurd (h refl)
  apply_double_chance-Settles p b unsupported h e = Settles-unsupported p b _ e

  -- A loop over bets of one kind, from its step.
  pub foldl-Settles :
      (P : Bet → Type 0) (step : Plan → Bet → Plan)
      → ((p : Plan) (b : Bet) → P b → Settles p (step p b) (b ∷ []))
      → (p : Plan) (bs : List Bet) → All P bs
      → Settles p (foldl step p bs) bs
  foldl-Settles P step one p [] h = Settles-refl p
  foldl-Settles P step one p (b ∷ bs) h =
      Settles-trans p (step p b) (foldl step (step p b) bs) (b ∷ []) bs (one p b h.0)
        (foldl-Settles P step one (step p b) bs h.1)

pub resolve_double_chance_bet-ne-push :
    (label : Text) (home away : ℕ) → resolve_double_chance_bet label home away ≢ push
unfolding resolve_double_chance_bet
resolve_double_chance_bet-ne-push label home away = ground arith
