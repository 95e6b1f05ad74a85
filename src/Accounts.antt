-- ===== src/Accounts.antt =====
-- Who signs in, and the tokens that are listed (backend/src/modules/auth and tokens).
pub mod Auth
pub mod Tokens
