-- ===== src/Redis/Dlq.antt =====
-- internal/adapters/redis/dlq_writer.go.
pub mod Laws
use qtip_challenge.Base.{
  ◌⊎◌, inl, inr, ℕ, suc, ◌+◌, String, ◌<>◌, Bool, true, false, Option, none, some, List, [], ◌∷◌,
  if◌then◌else◌,
}
use qtip_challenge.Base.Int.{ℤ, pos, ◌-ℤ◌, leb_ℤ}
use qtip_challenge.Base.Decimal.{itoa}
use qtip_challenge.Domain.Errors.{GoError, wrap}
use qtip_challenge.Domain.Task.{DlqEntry}
use qtip_challenge.Redis.Client.{Cmd, value, nil_reply, error}

unfoldable pub dlq_key : String → String → String
dlq_key tenant_id task_type = "queue:dlq:" <> (tenant_id <> (":" <> task_type))

-- The commands on lists that the writer uses, over the state `S` of the server; `push` is the
-- pipeline of RPUSH with EXPIRE. `redis.Nil` does not arise.
pub record ListCommands (S : Type 0) : Type 0 where
  pub push : String → String → ℤ → S → Option GoError × S
  pub llen : String → S → (Option GoError × ℤ) × S
  -- LRANGE key start stop
  pub lrange : String → ℤ → ℤ → S → (Option GoError × List String) × S

-- `encoding/json` on entries.
pub record EntryCodec : Type 0 where
  pub marshal : DlqEntry → String ⊎ GoError
  pub unmarshal : String → DlqEntry ⊎ GoError

-- A result with the gauge update that SendToDLQ makes, if it makes one.
pub data Gauge : Type 0 where
  unchanged : Gauge
  depth_recorded : String → String → ℤ → Gauge

module _ {S : Type 0} (R : ListCommands S) (J : EntryCodec) where
  -- The depth gauge after a successful write.
  unfoldable pub depth_gauge : DlqEntry → Option GoError × ℤ → Gauge
  depth_gauge entry (none, n) = depth_recorded entry.task.tenant_id entry.task.type n
  depth_gauge entry (some e, n) = unchanged

  -- `entry` and its task are no nil pointers here; `ttl_seconds` is cfg.Retry.DLQTTLSeconds.
  unfoldable pub send_to_dlq : ℤ → DlqEntry → S → (Option GoError × Gauge) × S
  unfolding depth_gauge
  send_to_dlq ttl_seconds entry s =
      let key = dlq_key entry.task.tenant_id entry.task.type in
      elim (J.marshal entry) [
        | inr e ↦ (
          (
            some (wrap ("dlq writer: marshal entry for task " <> (entry.task.id <> ": ")) e),
            unchanged,
          ),
          s,
        )
        | inl payload ↦
            let (pushed, s') = R.push key payload ttl_seconds s in
            elim pushed [
              | some e ↦ (
                (
                  some (wrap ("dlq writer: SendToDLQ task " <> (entry.task.id <> ": ")) e),
                  unchanged,
                ),
                s',
              )
              | none ↦ let (depth, s'') = R.llen key s' in ((none, depth_gauge entry depth), s'')
            ]
      ]

  -- The loop over the raw items; the index is that of the first one that does not parse.
  unfoldable pub parse_entries : String → ℕ → List String → Option GoError × List DlqEntry
  parse_entries where_from i [] = (none, [])
  parse_entries where_from i (item ∷ items) =
      let (e, rest) = parse_entries where_from (i + 1) items in
      elim (J.unmarshal item) [
        | inr x ↦
            (some (wrap (where_from <> (": unmarshal index " <> (itoa (pos i) <> ": "))) x), [])
        | inl entry ↦ elim e [ none ↦ (none, entry ∷ rest) | some x ↦ (some x, []) ]
      ]

  unfoldable pub list_dlq : String → String → ℤ → S → (Option GoError × List DlqEntry) × S
  unfolding parse_entries
  list_dlq tenant_id task_type limit s =
      let what = "dlq writer: ListDLQ " <> (tenant_id <> ("/" <> task_type)) in
      let ((e, raw), s') = R.lrange (dlq_key tenant_id task_type) (pos 0) (limit -ℤ pos 1) s in
      if leb_ℤ limit (pos 0) then ((none, []), s) else elim e [
        | some x ↦ ((some (wrap (what <> ": ") x), []), s')
        | none ↦ (parse_entries what 0 raw, s')
      ]

  unfoldable pub dlq_depth : String → String → S → (Option GoError × ℤ) × S
  dlq_depth tenant_id task_type s =
      let what = "dlq writer: DLQDepth " <> (tenant_id <> ("/" <> (task_type <> ": "))) in
      let ((e, n), s') = R.llen (dlq_key tenant_id task_type) s in
      elim e [ some x ↦ ((some (wrap what x), pos 0), s') | none ↦ ((none, n), s') ]
