-- ===== src/Db.antt =====
-- backend/src/db: the rules that rows pass before they are written.
pub mod Chunk
pub mod Dedupe
pub mod Schema
pub mod KlineRules
pub mod KlineRepository
pub mod JobRepository
