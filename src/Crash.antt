-- ===== src/Crash.antt =====
-- The crash game: src/lib/server/crashMath.ts, src/workers/crash-scheduler.worker.ts and the routes
-- under src/app/api/casino/crash. The keccak hash of a seed and a round is a parameter, as is the
-- chain; `flightDurationMs` is a logarithm in floating point and left out.
pub mod Point
pub mod Bets
pub mod Rounds
mod Tests
