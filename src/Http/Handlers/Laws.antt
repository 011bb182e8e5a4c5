-- ===== src/Http/Handlers/Laws.antt =====
-- The check of a request body against that of the task which it asks for.
use qtip_challenge.Base.{String, true, none, ◌≡◌, ◌≢◌, ◌↔◌, arith, eq_iff, sym, ap, ◌∙◌}
use qtip_challenge.Base.Int.{pos, ◌≤ℤ◌, ◌<ℤ◌}
use qtip_challenge.Domain.TaskType
use qtip_challenge.Domain.Priority
use qtip_challenge.Domain.Task
use qtip_challenge.Domain.Task.{EmailTask}
use qtip_challenge.Domain.Task.Laws.{validate-none_iff}
use qtip_challenge.Http.Handlers.{EnqueueTaskRequest, validate}

record IsAcceptable (req : EnqueueTaskRequest) : Type 0 where
  recipient_given : req.recipient ≢ ""
  known_type : TaskType.is_valid req.type ≡ true
  template_given : req.template_id ≢ ""
  priority_low : Priority.low ≤ℤ req.priority
  priority_high : req.priority ≤ℤ Priority.critical

validate-IsAcceptable : (req : EnqueueTaskRequest) → validate req ≡ none → IsAcceptable req
unfolding validate Priority.is_valid
validate-IsAcceptable req h = ground (arith, eq_iff req.recipient "", eq_iff req.template_id "")

IsAcceptable-validate : (req : EnqueueTaskRequest) → IsAcceptable req → validate req ≡ none
unfolding validate Priority.is_valid
IsAcceptable-validate req h = ground (arith, eq_iff req.recipient "", eq_iff req.template_id "")

-- For a task with the recipient, type and priority of a request, a tenant, and a positive number of
-- attempts: the request is accepted exactly if it names a template and the producer's check accepts
-- the task.
pub request_accepted_iff :
    (quoted : String → String) (req : EnqueueTaskRequest) (t : EmailTask)
    → t.recipient ≡ req.recipient
    → t.type ≡ req.type
    → t.priority ≡ req.priority
    → t.tenant_id ≢ ""
    → pos 0 <ℤ t.max_attempts
    → (validate req ≡ none) ↔ ((req.template_id ≢ "") × (Task.validate quoted t ≡ none))
request_accepted_iff quoted req t er et ep tenant attempts = (
  λ h.
      let a = validate-IsAcceptable req h in
      (
        a.template_given,
        (validate-none_iff quoted t).1 (record {
          tenant = tenant;
          recipient_given = λ e. a.recipient_given (sym er ∙ e);
          known_type = ap TaskType.is_valid et ∙ a.known_type;
          priority_low = rw ep a.priority_low;
          priority_high = rw ep a.priority_high;
          attempts = attempts;
        }),
      ),
  λ h.
      let b = (validate-none_iff quoted t).0 h.1 in
      IsAcceptable-validate req (record {
        recipient_given = λ e. b.recipient_given (er ∙ e);
        known_type = ap TaskType.is_valid (sym et) ∙ b.known_type;
        template_given = h.0;
        priority_low = rw (sym ep) b.priority_low;
        priority_high = rw (sym ep) b.priority_high;
      }),
)
