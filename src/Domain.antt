-- ===== src/Domain.antt =====
-- internal/domain: the types of the queue and the decisions that they carry.
pub mod Errors
pub mod TaskType
pub mod Priority
pub mod TaskStatus
pub mod Task
pub mod Retry
pub mod Stats
