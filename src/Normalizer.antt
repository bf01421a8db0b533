-- ===== src/Normalizer.antt =====
-- From the rows of the providers to fixtures and odds (packages/oracle/src/normalizers).
pub mod Odds
pub mod Scrape
mod Tests
