-- ===== src/Bonus/Tests.antt =====
-- A bonus account, and the theorems on it.
use sportystake.Base.{
  ℕ, ◌+◌, ◌*◌, ◌≤◌, ◌≡◌, refl, ◌↔◌, inl, true, false, none, some, List, [], ◌∷◌, arith,
}
use sportystake.Bonus.{
  rollover_multiplier, idle, active, completed, Account, is_completed, BonusBet,
  process_bonus_bet_settlement,
}
use sportystake.Bonus.Laws.{IsValid, process_all, staked, process_all_lem}

abbrev opted_in : Account
opted_in = record {
  bonus_opt_in = true;
  bonus_status = idle;
  bonus_balance = 0;
  initial_bonus_amount = 0;
  bonus_rollover_wagered = 0;
  bonus_expires_at = none;
}

abbrev credited : Account
credited = record opted_in {
  bonus_status = active;
  bonus_balance = 50_000_000;
  initial_bonus_amount = 50_000_000;
  bonus_expires_at = some 864_000_005;
}

abbrev good_legs : List ℕ
good_legs = 1_700 ∷ 1_600 ∷ 1_200 ∷ 1_650 ∷ []

abbrev large_bet : BonusBet
large_bet = record { stake = 300_000_000; payout = 0; is_won = false }

abbrev two_bets : List (ℕ × BonusBet)
two_bets = (7, large_bet) ∷ (9, large_bet) ∷ []

after_two_bets : (process_all two_bets credited).bonus_status ≡ completed
unfolding process_bonus_bet_settlement
after_two_bets = refl

credited-IsValid : IsValid credited
credited-IsValid = record { capped = omega arith; running = refl; over = inl refl }

process_all_lem_example :
    IsValid (process_all two_bets credited)
    × ((is_completed (process_all two_bets credited).bonus_status ≡ true) ↔ (
        credited.initial_bonus_amount * rollover_multiplier
        ≤ credited.bonus_rollover_wagered + staked two_bets))
process_all_lem_example = process_all_lem two_bets credited credited-IsValid refl (refl, (refl, tt))
