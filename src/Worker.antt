-- ===== src/Worker.antt =====
-- internal/worker: the supervisor with its worker goroutines, and the monitors beside it.
pub mod Ports
pub mod Stats
pub mod Ticker
pub mod DlqMonitor
pub mod DelayedScheduler
pub mod Pool
pub mod Loop
pub mod Protocol
pub mod Supervisor
