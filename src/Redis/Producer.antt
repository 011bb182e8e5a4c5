-- ===== src/Redis/Producer.antt =====
-- internal/adapters/redis/producer.go. The counter RecordEnqueued is left out: it is raised for each
-- task of a call that returns no error.
pub mod Laws
use qtip_challenge.Base.{String, ◌<>◌, ◌⊎◌, inl, inr, Option, none, some, List, [], ◌∷◌, map}
use qtip_challenge.Base.Int.{ℤ, ◌+ℤ◌}
use qtip_challenge.Domain.Errors.{GoError, GoErrors, nil, cons, wrap, multi_error}
use qtip_challenge.Domain.Priority
use qtip_challenge.Domain.Task
use qtip_challenge.Domain.Task.{EmailTask}
use qtip_challenge.Redis.Idempotency.{unix}
use qtip_challenge.Redis.Retry.{
  Field, Command, xadd, TaskCodec, xadd_values_builder, marshal_task_payload,
}

abbrev pub delayed_queue_key : String
delayed_queue_key = "queue:email:delayed"

-- The commands of the producer over a server and a context `S`.
pub record StreamCommands (S : Type 0) : Type 0 where
  -- ctx.Err()
  pub context_error : S → Option GoError
  -- XADD key * values
  pub append : String → List (String × Field) → S → Option GoError × S
  -- ZADD key score member
  pub zadd : String → ℤ → String → S → Option GoError × S
  -- Exec: the errors of the commands in order, then its own
  pub run_pipeline : List Command → S → (List (Option GoError) × Option GoError) × S

-- The error of a failed command: that of the context where it is cancelled.
abbrev pub command_error : String → Option GoError → Option GoError → Option GoError
command_error what context none = none
command_error what (some c) (some e) = some c
command_error what none (some e) = some (wrap what e)

-- The ids of a valid span context go into the task.
abbrev pub stamp_trace : Option (String × String) → EmailTask → EmailTask
stamp_trace none t = t
stamp_trace (some (trace, span)) t = record t { trace_id = trace; span_id = span }

-- `quoted` is the verb `%q` of Validate.
module _ {S : Type 0} (R : StreamCommands S) (J : TaskCodec) (quoted : String → String) where
  -- The rest of Enqueue for a task that is valid and stamped.
  unfoldable pub append_task : EmailTask → S → Option GoError × S
  unfolding marshal_task_payload
  append_task t s = elim (marshal_task_payload J t) [
    | inr e ↦ (some (wrap "producer: " e), s)
    | inl payload ↦
        let (e, s') = R.append (Priority.queue_name t.priority) (xadd_values_builder t payload) s in
        (command_error ("producer: enqueue task " <> (t.id <> ": ")) (R.context_error s') e, s')
  ]

  -- The error, and the task as the call leaves it.
  unfoldable pub enqueue :
      Option (String × String) → EmailTask → S → (Option GoError × EmailTask) × S
  unfolding append_task
  enqueue span t s = elim (Task.validate quoted t) [
    | some e ↦ ((some e, t), s)
    | none ↦ elim (R.context_error s) [
      | some e ↦ ((some e, t), s)
      | none ↦ let (e, s') = append_task (stamp_trace span t) s in ((e, stamp_trace span t), s')
    ]
  ]

  unfoldable pub validation_errors : List EmailTask → GoErrors
  validation_errors [] = nil
  validation_errors (t ∷ ts) =
      let more = validation_errors ts in
      elim (Task.validate quoted t) [
        | none ↦ more
        | some e ↦ cons (wrap ("task " <> (t.id <> ": ")) e) more
      ]

  -- The commands of the batch, or the error of the first task that cannot be marshalled.
  unfoldable pub batch_commands : List EmailTask → List Command ⊎ GoError
  batch_commands [] = inl []
  batch_commands (t ∷ ts) =
      let more = batch_commands ts in
      elim (marshal_task_payload J t) [
        | inr e ↦ inr (wrap "producer: " e)
        | inl payload ↦ elim more [
          | inr e ↦ inr e
          | inl cs ↦
              inl (xadd (Priority.queue_name t.priority) (xadd_values_builder t payload) ∷ cs)
        ]
      ]

  unfoldable pub exec_errors : List EmailTask → List (Option GoError) → GoErrors
  exec_errors (t ∷ ts) (none ∷ results) = exec_errors ts results
  exec_errors (t ∷ ts) (some e ∷ results) =
      cons (wrap ("task " <> (t.id <> ": ")) e) (exec_errors ts results)
  exec_errors _ _ = nil

  -- After Exec: `context` is ctx.Err().
  unfoldable pub batch_result :
      List EmailTask → List (Option GoError) → Option GoError → Option GoError → Option GoError
  unfolding exec_errors
  batch_result ts results (some e) (some c) = some c
  batch_result ts results _ _ = multi_error (exec_errors ts results)

  unfoldable pub write_batch : List EmailTask → S → Option GoError × S
  unfolding batch_commands batch_result
  write_batch ts s = elim (batch_commands ts) [
    | inr e ↦ (some e, s)
    | inl cs ↦
        let ((results, own), s') = R.run_pipeline cs s in
        (batch_result ts results own (R.context_error s'), s')
  ]

  unfoldable pub enqueue_batch : List EmailTask → S → Option GoError × S
  unfolding validation_errors write_batch
  enqueue_batch [] s = (none, s)
  enqueue_batch (t ∷ ts) s = elim (multi_error (validation_errors (t ∷ ts))) [
    | some e ↦ (some e, s)
    | none ↦ elim (R.context_error s) [ some e ↦ (some e, s) | none ↦ write_batch (t ∷ ts) s ]
  ]

  -- The rest of EnqueueDelayed for a task that is valid and has its time.
  unfoldable pub add_delayed : ℤ → EmailTask → S → Option GoError × S
  add_delayed at t s = elim (J.marshal t) [
    | inr e ↦ (some (wrap ("producer: marshal task " <> (t.id <> ": ")) e), s)
    | inl payload ↦
        let (e, s') = R.zadd delayed_queue_key (unix at) payload s in
        (
          command_error ("producer: enqueue delayed task " <> (t.id <> ": ")) (R.context_error s')
              e,
          s',
        )
  ]

  -- `now` is what time.Now returns.
  unfoldable pub enqueue_delayed : ℤ → ℤ → EmailTask → S → (Option GoError × EmailTask) × S
  unfolding add_delayed
  enqueue_delayed now delay t s = elim (Task.validate quoted t) [
    | some e ↦ ((some e, t), s)
    | none ↦ elim (R.context_error s) [
      | some e ↦ ((some e, t), s)
      | none ↦
          let at = now +ℤ delay in
          let timed = record t { scheduled_for = some at } in
          let (e, s') = add_delayed at timed s in ((e, timed), s')
    ]
  ]
