-- ===== src/Redis/Retry.antt =====
-- internal/adapters/redis/retry_scheduler.go and stream_entry.go. The server executes a pipeline
-- command by command, and each command has an error of its own.
pub mod Laws
pub mod Delay
pub mod Due
pub mod Leaves
pub mod Settled
use qtip_challenge.Base.{
  ℕ, String, ◌<>◌, ◌⊎◌, inl, inr, Option, none, some, List, [], ◌∷◌, ◌++◌, map, is_empty,
  if◌then◌else◌,
}
use qtip_challenge.Base.Int.{ℤ, pos, ◌+ℤ◌, ltb_ℤ, div_floor}
use qtip_challenge.Base.Decimal.{itoa}
use qtip_challenge.Domain.Errors.{GoError, wrap, error_text}
use qtip_challenge.Domain.Priority
use qtip_challenge.Domain.Task.{EmailTask}
use qtip_challenge.Redis.Idempotency.{unix}

abbrev pub retry_delayed_key : String
retry_delayed_key = "queue:email:retry:delayed"

abbrev pub retry_poison_key : String
retry_poison_key = "queue:retry:poison"

-- The `any` values of a stream entry are texts or numbers.
pub data Field : Type 0 where
  text : String → Field
  number : ℤ → Field

-- `enqueued_at` is counted in nanoseconds from 1970, as UnixNano is.
unfoldable pub xadd_values_builder : EmailTask → String → List (String × Field)
unfolding Priority.to_string
xadd_values_builder t payload =
    ("id", text t.id)
    ∷ ("payload", text payload)
    ∷ ("enqueued_at", number t.enqueued_at)
    ∷ ("tenant_id", text t.tenant_id)
    ∷ ("task_type", text t.type)
    ∷ ("priority", text (Priority.to_string t.priority))
    ∷ ("attempt", number t.attempt)
    ∷ ("trace_id", text t.trace_id)
    ∷ []

pub record RetryPoisonEntry : Type 0 where
  pub raw_member : String
  pub parse_error : String
  pub quarantined_at : ℤ
  pub source_key : String

-- The commands that go into pipelines.
pub data Command : Type 0 where
  xadd : String → List (String × Field) → Command
  zrem : String → List String → Command
  rpush : String → String → Command
  expire : String → ℤ → Command

-- A parsed text, or the error of the parser.
pub data Parsed : Type 0 where
  parsed : EmailTask → Parsed
  corrupt : GoError → Parsed

-- `encoding/json` on tasks and poison entries.
pub record TaskCodec : Type 0 where
  pub marshal : EmailTask → String ⊎ GoError
  pub unmarshal : String → Parsed
  pub marshal_poison : RetryPoisonEntry → String ⊎ GoError

pub record SortedSetCommands (S : Type 0) : Type 0 where
  -- ZADD key NX score member
  pub zadd_nx : String → ℤ → String → S → Option GoError × S
  -- ZRANGEBYSCORE key -inf max LIMIT 0 count
  pub zrange_by_score : String → ℤ → ℕ → S → (Option GoError × List String) × S
  -- Exec: the errors of the commands in order, then its own
  pub exec : List Command → S → (List (Option GoError) × Option GoError) × S

-- MarshalTaskPayload
unfoldable pub marshal_task_payload : TaskCodec → EmailTask → String ⊎ GoError
marshal_task_payload J t = elim (J.marshal t) [
  | inl s ↦ inl s
  | inr e ↦ inr (wrap ("redis: marshal task " <> (t.id <> ": ")) e)
]

module _ {S : Type 0} (R : SortedSetCommands S) (J : TaskCodec) where
  -- `now` is what time.Now returns.
  unfoldable pub schedule_retry : ℤ → EmailTask → ℤ → S → Option GoError × S
  schedule_retry now t delay s = elim (J.marshal t) [
    | inr e ↦ (some (wrap ("retry scheduler: marshal task " <> (t.id <> ": ")) e), s)
    | inl payload ↦
        let (e, s') = R.zadd_nx retry_delayed_key (unix (now +ℤ delay)) payload s in
        elim e [
          | none ↦ (none, s')
          | some x ↦ (some (wrap ("retry scheduler: ZADD task " <> (t.id <> ": ")) x), s')
        ]
  ]

  -- The loop that parses the members: the tasks with their members, and the corrupt members with
  -- their errors, each in order.
  unfoldable pub parse_members : List String → List (EmailTask × String) × List (String × GoError)
  parse_members [] = ([], [])
  parse_members (m ∷ ms) =
      let (good, bad) = parse_members ms in
      elim (J.unmarshal m) [ parsed t ↦ ((t, m) ∷ good, bad) | corrupt e ↦ (good, (m, e) ∷ bad) ]

  -- The loop of quarantineCorruptMembers: the RPUSHes, and the members to remove.
  unfoldable pub poison_commands : ℤ → List (String × GoError) → List Command × List String
  poison_commands now [] = ([], [])
  poison_commands now ((m, e) ∷ rest) =
      let (commands, to_remove) = poison_commands now rest in
      let entry : RetryPoisonEntry = record {
        raw_member = m;
        parse_error = error_text e;
        quarantined_at = now;
        source_key = retry_delayed_key;
      } in
      elim (J.marshal_poison entry) [
        | inl s ↦ (rpush retry_poison_key s ∷ commands, m ∷ to_remove)
        | inr _ ↦ (commands, to_remove)
      ]

  abbrev poison_ttl : ℤ → List Command
  poison_ttl ttl_seconds =
      if ltb_ℤ (pos 0) ttl_seconds then expire retry_poison_key ttl_seconds ∷ [] else []

  -- The errors of the pipeline are logged only. `ttl_seconds` is cfg.Retry.DLQTTLSeconds.
  unfoldable pub quarantine_corrupt_members : ℤ → ℤ → List (String × GoError) → S → S
  unfolding poison_commands
  quarantine_corrupt_members ttl_seconds now bad s =
      let (commands, to_remove) = poison_commands now bad in
      if is_empty to_remove
      then s
      else (R.exec (commands ++ (zrem retry_delayed_key to_remove ∷ poison_ttl ttl_seconds)) s).1

  -- The loop that queues the XADDs, with the task of each.
  unfoldable pub flush_commands : List (EmailTask × String) → List (EmailTask × Command)
  unfolding xadd_values_builder marshal_task_payload
  flush_commands [] = []
  flush_commands ((t, m) ∷ rest) =
      let more = flush_commands rest in
      elim (marshal_task_payload J t) [
        | inl payload ↦
            (t, xadd (Priority.queue_name t.priority) (xadd_values_builder t payload)) ∷ more
        | inr _ ↦ more
      ]

  -- The tasks whose XADD has no error.
  unfoldable pub flushed_tasks : List (EmailTask × Command) → List (Option GoError) → List EmailTask
  flushed_tasks ((t, c) ∷ rest) (none ∷ errors) = t ∷ flushed_tasks rest errors
  flushed_tasks ((t, c) ∷ rest) (some e ∷ errors) = flushed_tasks rest errors
  flushed_tasks _ _ = []

  abbrev pub flush_pipeline : List (EmailTask × String) → List Command
  flush_pipeline good =
      map (λ x. x.1) (flush_commands good) ++ zrem retry_delayed_key (map (λ x. x.1) good) ∷ []

  -- The last part: one pipeline, whose errors are logged only, and the flushed tasks.
  unfoldable pub flush_tasks : List (EmailTask × String) → S → List EmailTask × S
  unfolding flush_commands flushed_tasks
  flush_tasks [] s = ([], s)
  flush_tasks (x ∷ good) s =
      let ((errors, _), s') = R.exec (flush_pipeline (x ∷ good)) s in
      (flushed_tasks (flush_commands (x ∷ good)) errors, s')

  -- ZCARD and the depth gauge are left out: they change nothing that the code reads.
  unfoldable pub flush_ready : ℤ → ℤ → S → (Option GoError × List EmailTask) × S
  unfolding parse_members quarantine_corrupt_members flush_tasks
  flush_ready ttl_seconds now s =
      let ((e, members), s') = R.zrange_by_score retry_delayed_key (unix now) 100 s in
      elim e [
        | some x ↦ ((some (wrap "retry scheduler: ZRANGEBYSCORE: " x), []), s')
        | none ↦
            let (good, bad) = parse_members members in
            let s'' =
              if is_empty bad then s' else quarantine_corrupt_members ttl_seconds now bad s' in
            let (flushed, t) = flush_tasks good s'' in ((none, flushed), t)
      ]
