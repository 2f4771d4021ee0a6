-- ===== src/Kafka.antt =====
-- internal/kafka: the consumer side.
pub mod Committer
pub mod Poller
