-- ===== src/Routing.antt =====
-- Swap routing (backend/src/modules/routing).
pub mod Action
pub mod Graph
pub mod Paths
pub mod Simulate
pub mod Best
pub mod Split
pub mod Aggregate
pub mod Quote
pub mod GraphKey
pub mod GraphService
