-- ===== src/Ingest.antt =====
-- backend/src/ingest: from the messages of the stream to the tables.
pub mod TradeBuffer
pub mod StateStore
pub mod Service
pub mod StreamKeys
