-- ===== src/Api.antt =====
-- backend/src/api: what the HTTP interface computes for the dashboard.
pub mod Coverage
