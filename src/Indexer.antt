-- ===== src/Indexer.antt =====
-- The indexer (backend/src/modules/indexer).
pub mod Events
pub mod Payload
pub mod Database
pub mod Liquidity
pub mod Account
pub mod Ledgers
pub mod Swaps
pub mod Pipeline
pub mod Decimals
