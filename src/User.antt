-- ===== src/User.antt =====
-- internal/user: the users of the service, their repository, cache, service and handlers.
pub mod Model
pub mod Repository
pub mod Cache
pub mod Tx
pub mod Inputs
pub mod Validation
pub mod Service
pub mod Listing
