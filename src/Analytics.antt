-- ===== src/Analytics.antt =====
-- Prices and volumes over time (backend/src/modules/analytics).
pub mod Interval
pub mod Candles
pub mod Tvl
pub mod Leaderboard
