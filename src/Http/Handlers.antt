-- ===== src/Http/Handlers.antt =====
-- internal/adapters/http/handlers.go
pub mod Laws
use qtip_challenge.Base.{String, Bool, not, Option, none, some, ◌∷◌, [], str_eq, if◌then◌else◌}
use qtip_challenge.Base.Assoc.{GoMap}
use qtip_challenge.Base.Int.{ℤ}
use qtip_challenge.Domain.TaskType
use qtip_challenge.Domain.TaskType.{TaskType}
use qtip_challenge.Domain.Priority
use qtip_challenge.Domain.Priority.{Priority}
use qtip_challenge.Domain.Errors.{GoError, validation}
use qtip_challenge.Http.{Exchange, Handler, respond, write_json, write_error, map_json}

module _ {S : Type 0} where
  -- The formatted time of the clock is a parameter.
  unfoldable pub handle_healthz : (S → String × S) → Handler S
  unfolding write_json
  handle_healthz formatted_now r c =
      let (now, s) = formatted_now c.world in
      respond (write_json 200 (map_json (("status", "ok") ∷ ("time", now) ∷ [])))
        (record c { world = s })

  unfoldable pub handle_readyz : Bool → Handler S
  unfolding write_json
  handle_readyz is_ready r c =
      if is_ready
      then respond (write_json 200 (map_json (("status", "ready") ∷ []))) c
      else respond (write_json 503 (map_json (("status", "not_ready") ∷ []))) c

  unfoldable pub handle_enqueue_task : Handler S
  unfolding write_error
  handle_enqueue_task r =
      respond (write_error r 501 "not_implemented" "task enqueue is not yet implemented")

  unfoldable pub handle_get_task : Handler S
  unfolding write_error
  handle_get_task r =
      respond (write_error r 501 "not_implemented" "task lookup is not yet implemented")

  unfoldable pub handle_delete_task : Handler S
  unfolding write_error
  handle_delete_task r =
      respond (write_error r 501 "not_implemented" "task deletion is not yet implemented")

  unfoldable pub handle_list_dlq : Handler S
  unfolding write_error
  handle_list_dlq r =
      respond (write_error r 501 "not_implemented" "DLQ listing is not yet implemented")

-- Values of template data and instants as the JSON decoder gives them stay texts.
pub record EnqueueTaskRequest : Type 0 where
  pub recipient : String
  pub type : TaskType
  pub priority : Priority
  pub template_id : String
  pub template_data : GoMap String
  pub scheduled_for : Option ℤ
  pub metadata : GoMap String

unfoldable pub validate : EnqueueTaskRequest → Option GoError
validate req =
    if str_eq req.recipient ""
    then some (validation "recipient" "recipient is required")
    else if not (TaskType.is_valid req.type)
    then some (validation "type" "type must be a valid TaskType")
    else if str_eq req.template_id ""
    then some (validation "template_id" "template_id is required")
    else if not (Priority.is_valid req.priority)
    then some (validation "priority" "priority must be 0–3")
    else none
