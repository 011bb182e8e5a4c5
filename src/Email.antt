-- ===== src/Email.antt =====
-- internal/adapters/email: the circuit breaker, the SendGrid sender and the stub sender.
pub mod Breaker
pub mod SendGrid
pub mod Stub
