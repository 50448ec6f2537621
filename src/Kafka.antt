-- ===== src/Kafka.antt =====
-- internal/kafkaconsumer: the consumer of the outbox topic, its router and its handler.
pub mod Model
pub mod Stores
pub mod Tx
pub mod Handler
pub mod Consumer
