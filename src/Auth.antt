-- ===== src/Auth.antt =====
-- internal/auth: passwords, tokens, the authentication service and its middleware.
pub mod Model
pub mod Password
pub mod Token
pub mod Tx
pub mod Service
pub mod Access
pub mod RefreshTokens
