-- ===== src/Outbox.antt =====
-- internal/outbox: the transactional outbox, its worker and its Kafka publisher.
pub mod Model
pub mod Repository
pub mod Publisher
pub mod Protocol
pub mod Worker
