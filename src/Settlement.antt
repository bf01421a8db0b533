-- ===== src/Settlement.antt =====
-- The settlement of a market (src/lib/server/settlement.ts, src/lib/server/repos/bets.repo.ts,
-- src/lib/server/settlementRisk.ts): how a bet resolves from a score, the plan over all bets, the
-- run on chain, and the reconciliation of the tables.
pub mod Outcome
pub mod Tables
pub mod Plan
pub mod Parlay
pub mod Execute
pub mod Worker
pub mod Sweep
mod Tests
