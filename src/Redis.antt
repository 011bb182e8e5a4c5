-- ===== src/Redis.antt =====
-- internal/adapters/redis: the adapters behind the ports. Redis and its client are parameters.
pub mod Client
pub mod Connection
pub mod Idempotency
pub mod Dlq
pub mod Retry
pub mod Producer
pub mod Consumer
pub mod Poll
