-- ===== src/Tests.antt =====
-- Runs of the modelled code on concrete inputs.
pub mod Sample
pub mod Server
pub mod Queues
mod Supervisor
mod Http
mod Loading
mod Locks
mod Storage
mod Delays
mod Claims
mod Shutdown
mod Booting
mod Workers
mod Sending
pub mod Streams
mod Polling
mod Once
