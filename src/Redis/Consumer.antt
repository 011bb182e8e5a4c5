-- ===== src/Redis/Consumer.antt =====
-- internal/adapters/redis/consumer.go: consumer groups, parsing, claims and acknowledgement.
pub mod Laws
pub mod Claims
use qtip_challenge.Base.{
  String, ◌<>◌, ◌⊎◌, inl, inr, Bool, not, Option, none, some, List, [], ◌∷◌, ◌++◌, if◌then◌else◌,
}
use qtip_challenge.Base.Int.{ℤ}
use qtip_challenge.Base.Assoc.{GoMap, lookup}
use qtip_challenge.Base.Texts.{contains_text}
use qtip_challenge.Domain.Errors.{GoError, plain, wrap, error_text}
use qtip_challenge.Domain.Priority
use qtip_challenge.Domain.Task.{EmailTask, read_map, write_map}
use qtip_challenge.Redis.Client.{Cmd, value, nil_reply, error}
use qtip_challenge.Redis.Retry.{Field, text, number, TaskCodec, parsed, corrupt}

abbrev pub priority_streams : List String
priority_streams =
    Priority.queue_name Priority.critical
    ∷ Priority.queue_name Priority.high
    ∷ Priority.queue_name Priority.normal
    ∷ Priority.queue_name Priority.low
    ∷ []

abbrev pub meta_stream_id : String
meta_stream_id = "_stream_id"

abbrev pub meta_stream_key : String
meta_stream_key = "_stream_key"

-- XMessage
pub record Message : Type 0 where
  pub id : String
  pub values : GoMap Field

-- The commands of the consumer on one group and consumer.
pub record GroupCommands (S : Type 0) : Type 0 where
  -- XGROUP CREATE key group $ MKSTREAM
  pub create_group : String → S → Option GoError × S
  -- XACK key group id
  pub xack : String → String → S → Option GoError × S
  -- XAUTOCLAIM key group consumer min-idle 0-0 COUNT 100
  pub xautoclaim : String → ℤ → S → Cmd (List Message) × S

unfoldable pub is_busy_group : GoError → Bool
is_busy_group e = contains_text (error_text e) "BUSYGROUP"

unfoldable pub is_no_group : GoError → Bool
is_no_group e = contains_text (error_text e) "NOGROUP"

-- The parsed task with its place in the streams.
unfoldable pub stamp_place : String → String → EmailTask → EmailTask
stamp_place stream_key id t = record t {
  metadata = write_map (write_map t.metadata meta_stream_id id) meta_stream_key stream_key;
}

unfoldable pub parse_payload : TaskCodec → String → String → Option Field → EmailTask ⊎ GoError
unfolding stamp_place
parse_payload J stream_key id none = inr (plain ("message " <> (id <> " missing 'payload' field")))
parse_payload J stream_key id (some (number n)) =
    inr (plain ("message " <> (id <> ": 'payload' is not a string")))
parse_payload J stream_key id (some (text payload)) = elim (J.unmarshal payload) [
  | corrupt e ↦ inr (wrap ("message " <> (id <> ": unmarshal: ")) e)
  | parsed t ↦ inl (stamp_place stream_key id t)
]

unfoldable pub task_from_message : TaskCodec → String → Message → EmailTask ⊎ GoError
unfolding parse_payload
task_from_message J stream_key msg = parse_payload J stream_key msg.id (lookup msg.values "payload")

-- The loop over the messages of one stream; one that does not parse is logged and skipped.
unfoldable pub parsed_tasks : TaskCodec → String → List Message → List EmailTask
unfolding task_from_message
parsed_tasks J stream_key [] = []
parsed_tasks J stream_key (msg ∷ msgs) =
    let more = parsed_tasks J stream_key msgs in
    elim (task_from_message J stream_key msg) [ inl t ↦ t ∷ more | inr e ↦ more ]

-- `quoted` is the verb `%q`, `group` the name of the consumer group.
module _ {S : Type 0} (R : GroupCommands S) (J : TaskCodec) (quoted : String → String)
    (group : String) where
  unfoldable pub ensure_consumer_group : String → S → Option GoError × S
  ensure_consumer_group stream_key s =
      let (e, s') = R.create_group stream_key s in
      elim e [
        | none ↦ (none, s')
        | some x ↦ if is_busy_group x then (none, s') else (
          some (
              wrap
                ("consumer: create group "
                  <> (quoted group <> (" on " <> (quoted stream_key <> ": "))))
                x),
          s',
        )
      ]

  -- The first part of Consume: the groups of all streams, up to the first error.
  unfoldable pub ensure_groups : List String → S → Option GoError × S
  unfolding ensure_consumer_group
  ensure_groups [] s = (none, s)
  ensure_groups (k ∷ ks) s =
      let (e, s') = ensure_consumer_group k s in
      let rest = ensure_groups ks s' in elim e [ none ↦ rest | some x ↦ (some x, s') ]

  unfoldable pub acknowledge : EmailTask → S → Option GoError × S
  acknowledge t s =
      let stream_key = read_map t.metadata meta_stream_key in
      let msg_id = read_map t.metadata meta_stream_id in
      let (e, s') = R.xack stream_key msg_id s in
      elim e [
        | none ↦ (none, s')
        | some x ↦ (
          some (wrap ("consumer: XACK stream=" <> (stream_key <> (" id=" <> (msg_id <> ": ")))) x),
          s',
        )
      ]

  -- Nothing but a line of the log.
  unfoldable pub nack : EmailTask → GoError → S → Option GoError × S
  nack t reason s = (none, s)

  -- The loop of ClaimStale from these streams on; an error ends it without a task.
  unfoldable pub claim_from : ℤ → List String → S → (List EmailTask ⊎ GoError) × S
  unfolding parsed_tasks
  claim_from idle [] s = (inl [], s)
  claim_from idle (k ∷ ks) s =
      let (reply, s') = R.xautoclaim k idle s in
      let (rest, s'') = claim_from idle ks s' in
      elim reply [
        | error e ↦ (inr (wrap ("consumer: XAUTOCLAIM stream=" <> (k <> ": ")) e), s')
        | nil_reply ↦ (rest, s'')
        | value msgs ↦ elim rest [
          | inl ts ↦ (inl (parsed_tasks J k msgs ++ ts), s'')
          | inr e ↦ (inr e, s'')
        ]
      ]

  unfoldable pub claim_stale : ℤ → S → (List EmailTask ⊎ GoError) × S
  unfolding claim_from
  claim_stale idle s = claim_from idle priority_streams s
