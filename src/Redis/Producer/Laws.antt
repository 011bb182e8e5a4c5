-- ===== src/Redis/Producer/Laws.antt =====
-- Enqueue and EnqueueBatch of internal/adapters/redis/producer.go against the contents of streams.
use qtip_challenge.Base.{
  true, ℕ, ◌+◌, ◌<◌, String, inl, inr, Option, none, some, List, [], ◌∷◌, ◌++◌, ◌≡◌, ◌⊎◌, arith,
  refl, is_some, if◌then◌else◌, ◌<>◌,
}
use qtip_challenge.Domain.Errors.{GoError, GoErrors, nil, cons, multi, count_errors, multi_error}
use qtip_challenge.Domain.Priority
use qtip_challenge.Domain.Task
use qtip_challenge.Domain.Task.{EmailTask}
use qtip_challenge.Redis.Retry.{Field, TaskCodec, xadd_values_builder, marshal_task_payload}
use qtip_challenge.Redis.Producer.{
  StreamCommands, command_error, stamp_trace, append_task, enqueue, validation_errors,
  enqueue_batch,
}

-- Documented behaviour of XADD, where `appended` is what was added to streams so far: a command
-- without error has added its entry at the end.
pub record IsStreams {S : Type 0} (R : StreamCommands S) : Type 0 where
  pub appended : S → List (String × List (String × Field))
  pub append_lem :
      (k : String) (f : List (String × Field)) (s : S)
      → (is_some (R.append k f s).0 ≡ true)
        ⊎ (appended (R.append k f s).1 ≡ appended s ++ (k, f) ∷ [])

command_error-none :
    (what : String) (c e : Option GoError) → command_error what c e ≡ none → e ≡ none
command_error-none what c none h = refl
command_error-none what (some x) (some e) h = ground (arith, h)
command_error-none what none (some e) h = ground (arith, h)

marshal-cases :
    (x : String ⊎ GoError) → ((s : String) × (x ≡ inl s)) ⊎ ((e : GoError) × (x ≡ inr e))
marshal-cases (inl s) = inl (s, refl)
marshal-cases (inr e) = inr (e, refl)

module _ {S : Type 0} (R : StreamCommands S) (J : TaskCodec) (quoted : String → String) where
  append_task_lem :
      (L : IsStreams R) (t : EmailTask) (s : S)
      → (append_task R J quoted t s).0 ≡ none
      → (payload : String) × (J.marshal t ≡ inl payload)
        × (L.appended (append_task R J quoted t s).1
            ≡ L.appended s ++ (Priority.queue_name t.priority, xadd_values_builder t payload) ∷ [])
  unfolding append_task marshal_task_payload
  append_task_lem L t s h = elim (marshal-cases (J.marshal t)) [
    | inr (e, q) ↦ absurd (ground (arith, q))
    | inl (payload, q) ↦
        let k = Priority.queue_name t.priority in
        let f = xadd_values_builder t payload in
        let ok =
          command_error-none ("producer: enqueue task " <> (t.id <> ": "))
            (R.context_error (R.append k f s).1) (R.append k f s).0 in
        (payload, q, ground (arith, q, ok, L.append_lem k f s))
  ]

  -- On streams that behave as documented, an Enqueue without error was of a valid task, and has put
  -- one entry at the end of the stream of the task's priority, which holds the JSON of the task with
  -- its trace ids.
  pub enqueue-appended :
      (L : IsStreams R) (span : Option (String × String)) (t : EmailTask) (s : S)
      → (enqueue R J quoted span t s).0.0 ≡ none
      → let t' = stamp_trace span t in
        (Task.validate quoted t ≡ none)
        × ((payload : String) × (J.marshal t' ≡ inl payload)
            × (L.appended (enqueue R J quoted span t s).1
                ≡ L.appended s
                  ++ (Priority.queue_name t'.priority, xadd_values_builder t' payload) ∷ []))
  unfolding enqueue
  enqueue-appended L span t s h = ground (arith, append_task_lem L (stamp_trace span t) s)

  -- The tasks that Validate refuses.
  unfoldable pub invalid : List EmailTask → ℕ
  invalid [] = 0
  invalid (t ∷ ts) = (if is_some (Task.validate quoted t) then 1 else 0) + invalid ts

  validation_errors-count :
      (ts : List EmailTask) → count_errors (validation_errors R J quoted ts) ≡ invalid ts
  unfolding validation_errors count_errors invalid
  validation_errors-count [] = refl
  validation_errors-count (t ∷ ts) = ground (arith, validation_errors-count ts)

  multi_error_lem : (es : GoErrors) → 0 < count_errors es → multi_error es ≡ some (multi es)
  unfolding count_errors
  multi_error_lem nil h = absurd (omega arith)
  multi_error_lem (cons e es) h = refl

  -- A batch with an invalid task writes nothing: EnqueueBatch leaves the server as it is and
  -- reports one error for each invalid task.
  pub enqueue_batch_refuses :
      (ts : List EmailTask) (s : S)
      → 0 < invalid ts
      → (es : GoErrors) × (count_errors es ≡ invalid ts)
        × (enqueue_batch R J quoted ts s ≡ (some (multi es), s))
  unfolding enqueue_batch invalid
  enqueue_batch_refuses [] s h = absurd (omega arith)
  enqueue_batch_refuses (t ∷ ts) s h =
      let es = validation_errors R J quoted (t ∷ ts) in
      let n = validation_errors-count (t ∷ ts) in
      (es, n, ground (arith, multi_error_lem es (omega (arith, n))))
