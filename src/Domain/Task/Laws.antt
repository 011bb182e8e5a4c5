-- ===== src/Domain/Task/Laws.antt =====
-- `Validate` of internal/domain/email_task.go against a table of constraints.
use qtip_challenge.Base.{String, true, none, ◌≡◌, ◌≢◌, ◌↔◌, arith, eq_iff}
use qtip_challenge.Base.Int.{pos, ◌≤ℤ◌, ◌<ℤ◌}
use qtip_challenge.Domain.TaskType
use qtip_challenge.Domain.Priority
use qtip_challenge.Domain.Task.{EmailTask, validate}

pub record IsEnqueueable (t : EmailTask) : Type 0 where
  pub tenant : t.tenant_id ≢ ""
  pub recipient_given : t.recipient ≢ ""
  pub known_type : TaskType.is_valid t.type ≡ true
  pub priority_low : Priority.low ≤ℤ t.priority
  pub priority_high : t.priority ≤ℤ Priority.critical
  pub attempts : pos 0 <ℤ t.max_attempts

validate-IsEnqueueable :
    (quoted : String → String) (t : EmailTask) → validate quoted t ≡ none → IsEnqueueable t
unfolding validate Priority.is_valid
validate-IsEnqueueable quoted t h = ground (arith, eq_iff t.tenant_id "", eq_iff t.recipient "")

IsEnqueueable-validate :
    (quoted : String → String) (t : EmailTask) → IsEnqueueable t → validate quoted t ≡ none
unfolding validate Priority.is_valid
IsEnqueueable-validate quoted t h = ground (arith, eq_iff t.tenant_id "", eq_iff t.recipient "")

-- Validate reports no error exactly if the task has a tenant and a recipient, a known type, a
-- priority from low to critical, and a positive number of attempts.
pub validate-none_iff :
    (quoted : String → String) (t : EmailTask) → (validate quoted t ≡ none) ↔ IsEnqueueable t
validate-none_iff quoted t = (validate-IsEnqueueable quoted t, IsEnqueueable-validate quoted t)
