-- ===== src/Binance.antt =====
-- backend/src/binance: the clients of the exchange and what protects them.
pub mod RateLimiter
pub mod WsClient
pub mod RestClient
pub mod Klines
