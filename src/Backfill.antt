-- ===== src/Backfill.antt =====
-- backend/src/backfill: finding the candles that are missing and fetching them.
pub mod GapMath
pub mod Paginator
pub mod StartupPlan
pub mod Service
pub mod Requests
pub mod KlineMapper
pub mod Runner
pub mod Concurrency
