-- ===== src/Plugins.antt =====
-- The plugins of src/library/service/service.go other than the TCP service: Redis, Kafka and HTTP.
pub mod Redis
pub mod Kafka
pub mod Http
pub mod Restarted
