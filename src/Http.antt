-- ===== src/Http.antt =====
-- The HTTP API: internal/response, internal/validation and the handlers with their routes.
pub mod Response
pub mod Validation
pub mod Users
pub mod Sessions
pub mod Routes
pub mod Middleware
