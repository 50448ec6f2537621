-- ===== src/Ratelimit.antt =====
-- internal/ratelimit: the limiter in memory, the limiter in Redis, and what both promise.
pub mod InMemory
pub mod Redis
pub mod Window
pub mod Agreement
