-- ===== src/Casino.antt =====
-- The casino (src/lib/server/casino.ts, provably-fair.ts, blackjackEngine.ts): draws from a digest,
-- and the games that are resolved from them.
pub mod Draws
pub mod Dice
pub mod Roulette
pub mod Baccarat
pub mod Slots
pub mod Blackjack
pub mod Onchain
pub mod BetRoute
mod Tests
