-- ===== src/Tests.antt =====
-- Runs of the program's parts on small inputs.
mod Fixtures
pub mod Pools
pub mod Routes
pub mod Steps
pub mod Graphs
pub mod Events
pub mod Swaps
mod Tables
pub mod Liquidity
pub mod Ledgers
pub mod Pages
pub mod Stable
pub mod Candles
pub mod Accounts
pub mod SignIn
pub mod Kept
pub mod Boards
pub mod Requests
pub mod Shown
pub mod Cached
pub mod Feed
pub mod Decimals
pub mod InTime
