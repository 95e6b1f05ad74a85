-- ===== src/Math.antt =====
-- The pool mathematics (backend/src/shared/amm-math).
pub mod ConstantProduct
pub mod Concentrated
pub mod Stable
