-- ===== src/App.antt =====
-- internal/config and internal/app: the configuration and the checks of readiness.
pub mod Config
pub mod Health
