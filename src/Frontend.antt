-- ===== src/Frontend.antt =====
-- frontend/src: what the pages of the dashboard share.
pub mod EventStream
pub mod OpsThresholds
