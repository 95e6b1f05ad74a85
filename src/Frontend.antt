-- ===== src/Frontend.antt =====
-- The Angular application (frontend/src/app).
pub mod Wallet
pub mod SwapStore
pub mod SwapForm
pub mod AmmMath
pub mod SignIn
pub mod Pools
pub mod Liquidity
pub mod Feed
