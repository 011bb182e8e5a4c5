-- ===== src/Domain/TaskStatus.antt =====
-- `TaskStatus` of internal/domain/types.go.
use qtip_challenge.Base.{String}

-- A string type in the source.
abbrev pub TaskStatus : Type 0
TaskStatus = String

abbrev pub pending : TaskStatus
pending = "pending"

abbrev pub processing : TaskStatus
processing = "processing"

abbrev pub completed : TaskStatus
completed = "completed"

abbrev pub failed : TaskStatus
failed = "failed"

abbrev pub retry_scheduled : TaskStatus
retry_scheduled = "retry_scheduled"

abbrev pub dead : TaskStatus
dead = "dead"
