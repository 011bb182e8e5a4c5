-- ===== src/Redis/Consumer/Laws.antt =====
-- What the producer writes and what the consumer reads: internal/adapters/redis/consumer.go against
-- stream_entry.go and the priorities of internal/domain/types.go.
use mathlib.Core.Path.{subst}
use qtip_challenge.Base.{
  zero, suc, String, inl, inr, true, none, some, Option, Option-cases, [], ◌≡◌, ◌↔◌, arith, refl,
  eq_iff, ◌∙◌,
}
use qtip_challenge.Base.Int.{ℤ, pos, negsuc}
use qtip_challenge.Base.Assoc.Laws.{lookup-insert, lookup-insert_other}
use qtip_challenge.Base.Assoc.{GoMap, lookup}
use qtip_challenge.Domain.Errors.{GoError}
use qtip_challenge.Domain.Priority
use qtip_challenge.Domain.Task.{EmailTask, read_map, write_map}
use qtip_challenge.Redis.Retry.{TaskCodec, parsed, xadd_values_builder}
use qtip_challenge.Redis.Retry.Laws.{contains}
use qtip_challenge.Redis.Consumer.{
  priority_streams, meta_stream_id, meta_stream_key, stamp_place, parse_payload, task_from_message,
  GroupCommands, acknowledge,
}

read-write_map : (m : Option (GoMap String)) (k v : String) → read_map (write_map m k v) k ≡ v
unfolding read_map write_map
read-write_map none k v = ground (arith, lookup-insert [] k v)
read-write_map (some m) k v = ground (arith, lookup-insert m k v)

read-write_map_other :
    (m : Option (GoMap String)) (k j v : String)
    → (j ≡ k → ⊥)
    → read_map (write_map m k v) j ≡ read_map m j
unfolding read_map write_map
read-write_map_other none k j v h = ground (arith, eq_iff j k)
read-write_map_other (some m) k j v h = ground (arith, lookup-insert_other m k j v h)

-- An Acknowledge that is the XACK of this stream and this id, and succeeds exactly if that does.
abbrev pub Acks : {S : Type 0} → GroupCommands S → String → String → S → Option GoError × S → Type 0
Acks R stream_key id s (e, s') =
    (s' ≡ (R.xack stream_key id s).1) × ((e ≡ none) ↔ ((R.xack stream_key id s).0 ≡ none))

-- Acknowledge goes by the two entries of the metadata.
acknowledge-Acks :
    {S : Type 0} (R : GroupCommands S) (codec : TaskCodec) (quoted : String → String)
    (group : String) (t : EmailTask) (s : S)
    → Acks R
        (read_map t.metadata meta_stream_key)
        (read_map t.metadata meta_stream_id)
        s
        (acknowledge R codec quoted group t s)
unfolding acknowledge
acknowledge-Acks R codec quoted group t s =
    elim (Option-cases
      (R.xack (read_map t.metadata meta_stream_key) (read_map t.metadata meta_stream_id) s).0) [
        | inl fine ↦ rw (acknowledge, fine) (refl, ((λ h. refl), (λ h. refl)))
        | inr (e, failed) ↦ rw (acknowledge, failed) (refl, ((λ h. cc), (λ h. cc)))
      ]

-- A message that holds the fields of an enqueued task, with a payload that is read back as the task,
-- is parsed as that task, and only its metadata differ. On any server, Acknowledge of the parsed task
-- is the XACK of the stream and the id of the message, and succeeds exactly if that does.
pub task_from_message-xadd_values_builder :
    {S : Type 0} (R : GroupCommands S) (codec : TaskCodec) (quoted : String → String)
    (group : String) (t : EmailTask) (payload stream_key id : String)
    → codec.unmarshal payload ≡ parsed t
    → (t' : EmailTask) × (task_from_message codec stream_key
          (record { id = id; values = xadd_values_builder t payload })
        ≡ inl t')
      × (record t' { metadata = t.metadata } ≡ t)
      × (read_map t'.metadata meta_stream_key ≡ stream_key)
      × (read_map t'.metadata meta_stream_id ≡ id)
      × ((s : S) → Acks R stream_key id s (acknowledge R codec quoted group t' s))
unfolding task_from_message parse_payload stamp_place xadd_values_builder lookup
task_from_message-xadd_values_builder R codec quoted group t payload stream_key id h =
    let placed = write_map t.metadata meta_stream_id id in
    let t' = stamp_place stream_key id t in
    let keys : meta_stream_id ≡ meta_stream_key → ⊥ =
      λ e. ground (arith, eq_iff meta_stream_id meta_stream_key, e) in
    let at_key = read-write_map placed meta_stream_key stream_key in
    let at_id =
      read-write_map_other placed meta_stream_key meta_stream_id stream_key keys
      ∙ read-write_map t.metadata meta_stream_id id in
    (
      t',
      ground (arith, h),
      refl,
      at_key,
      at_id,
      (λ s.
          let acks = acknowledge-Acks R codec quoted group t' s in
          let place = read_map t'.metadata meta_stream_key in
          subst (λ x. Acks R x id s (acknowledge R codec quoted group t' s)) at_key
            (subst (λ x. Acks R place x s (acknowledge R codec quoted group t' s)) at_id acks)),
    )

-- The consumer reads every stream that a valid priority is queued in.
priority_streams_complete :
    (p : ℤ) → Priority.is_valid p ≡ true → contains priority_streams (Priority.queue_name p) ≡ true
unfolding Priority.is_valid Priority.queue_name
priority_streams_complete (pos zero) h = refl
priority_streams_complete (pos (suc zero)) h = refl
priority_streams_complete (pos (suc (suc zero))) h = refl
priority_streams_complete (pos (suc (suc (suc zero)))) h = refl
priority_streams_complete (pos (suc (suc (suc (suc n))))) h = absurd (ground (arith, h))
priority_streams_complete (negsuc n) h = absurd (ground (arith, h))
