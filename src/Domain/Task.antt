-- ===== src/Domain/Task.antt =====
-- internal/domain/email_task.go and dlq.go: tasks, their validation and their retry decision.
-- `any` values of the template data stand as the JSON text that they are sent as.
pub mod Laws
pub mod Identity
use qtip_challenge.Base.{
  String, ◌<>◌, Bool, false, not, Option, none, some, List, [], str_eq, if◌then◌else◌,
}
use qtip_challenge.Base.Int.{ℤ, pos, ltb_ℤ, leb_ℤ}
use qtip_challenge.Base.Assoc.{GoMap, lookup, insert}
use qtip_challenge.Base.Decimal.{itoa}
use qtip_challenge.Domain.Errors.{GoError, validation}
use qtip_challenge.Domain.TaskType
use qtip_challenge.Domain.TaskType.{TaskType}
use qtip_challenge.Domain.Priority
use qtip_challenge.Domain.Priority.{Priority}
use qtip_challenge.Domain.TaskStatus.{TaskStatus}

pub record EmailTask : Type 0 where
  pub id : String
  pub tenant_id : String
  pub type : TaskType
  pub priority : Priority
  pub recipient : String
  pub template_id : String
  pub template_data : Option (GoMap String)
  pub enqueued_at : ℤ
  pub scheduled_for : Option ℤ
  pub attempt : ℤ
  pub max_attempts : ℤ
  pub status : TaskStatus
  pub last_error : String
  pub trace_id : String
  pub span_id : String
  pub metadata : Option (GoMap String)

-- A read of a Go map: a missing key, or a nil map, gives the zero value "".
abbrev pub value_or_zero : Option String → String
value_or_zero none = ""
value_or_zero (some v) = v

unfoldable pub read_map : Option (GoMap String) → String → String
unfolding lookup
read_map none k = ""
read_map (some m) k = value_or_zero (lookup m k)

-- A write to a map that is made first where it is nil.
unfoldable pub write_map : Option (GoMap String) → String → String → Option (GoMap String)
unfolding insert
write_map none k v = some (insert [] k v)
write_map (some m) k v = some (insert m k v)

-- `none` is the nil error; `quoted` is the verb `%q`.
unfoldable pub validate : (String → String) → EmailTask → Option GoError
unfolding TaskType.is_valid Priority.is_valid
validate quoted t =
    if str_eq t.tenant_id ""
    then some (validation "tenant_id" "tenant_id is required")
    else if str_eq t.recipient ""
    then some (validation "recipient" "recipient is required")
    else if not (TaskType.is_valid t.type)
    then some (validation "type" ("unknown task type " <> quoted t.type))
    else if not (Priority.is_valid t.priority)
    then some (validation "priority" ("invalid priority " <> itoa t.priority <> " (must be 0–3)"))
    else if leb_ℤ t.max_attempts (pos 0)
    then some (validation "max_attempts" "max_attempts must be greater than zero")
    else none

unfoldable pub is_poison_message : EmailTask → Bool
unfolding read_map
is_poison_message t = elim t.metadata [
  | none ↦ false
  | some m ↦ str_eq (read_map (some m) "poison") "true"
]

unfoldable pub is_retryable : EmailTask → Bool
is_retryable t = if is_poison_message t then false else ltb_ℤ t.attempt t.max_attempts

-- `domain.DLQEntry`; the supervisor leaves the attempt history nil.
pub record AttemptRecord : Type 0 where
  pub attempt : ℤ
  pub started_at : ℤ
  pub failed_at : ℤ
  pub error : String
  pub worker_id : String

pub record DlqEntry : Type 0 where
  pub task : EmailTask
  pub dead_at : ℤ
  pub failure_reason : String
  pub final_error : String
  pub attempt_history : List AttemptRecord
