-- ===== src/Redis/Idempotency/Completion.antt =====
-- SetCompleted, IsCompleted and the outcomes of TryReclaimStale on the key of an attempt:
-- internal/adapters/redis/idempotency.go.
use qtip_challenge.Base.{String, true, false, none, ◌≡◌, refl, arith, eq_iff, eq_refl}
use qtip_challenge.Base.Int.{ℤ, div_trunc}
use qtip_challenge.Base.Decimal.{itoa}
use qtip_challenge.Domain.Retry.{second}
use qtip_challenge.Redis.Client.{KeyCommands, IsRedis}
use qtip_challenge.Redis.Idempotency.{
  idempotency_key, IdempotencyRecord, Formats, unix, write_lock, reclaim_if_old, reclaim_script,
  script_answer, set_completed, read_completed, is_completed, try_reclaim_stale,
}
use qtip_challenge.Redis.Idempotency.Lock.{IsFaithful, Holds, lock_of}

module _ {S : Type 0} (R : KeyCommands S) (fmt : Formats) where
  -- The key of the attempt holds a record in state completed.
  abbrev pub Completed : String → S → Type 0
  Completed task_id s =
      (rec : IdempotencyRecord) × (rec.status ≡ "completed") × Holds R fmt task_id rec s

module _ {S : Type 0} (R : KeyCommands S) (fmt : Formats) (L : IsRedis R) (C : IsFaithful fmt)
    (task_id : String) (s : S) where
  pub is_completed_keeps : (is_completed R fmt task_id s).1 ≡ s
  unfolding is_completed
  is_completed_keeps = ground (arith, L.get_lem (idempotency_key task_id) s)

  -- A held lock is not taken for completed.
  pub is_completed_held :
      (holder : String) (since : ℤ)
      → Holds R fmt task_id (lock_of R fmt holder since) s
      → (is_completed R fmt task_id s).0.0 ≡ false
  unfolding is_completed read_completed
  is_completed_held holder since held = ground (
    arith,
    L.get_lem (idempotency_key task_id) s,
    C.decode-encode (lock_of R fmt holder since),
    eq_iff "processing" "completed",
  )

  -- A reclaim that succeeds leaves the lock with the caller, whatever the key held before.
  pub try_reclaim_stale-Holds :
      (ttl now : ℤ) (worker_id : String) (max_age : ℤ)
      → (try_reclaim_stale R fmt ttl now task_id worker_id max_age s).0.0 ≡ true
      → Holds R fmt task_id
          (lock_of R fmt worker_id now)
          (try_reclaim_stale R fmt ttl now task_id worker_id max_age s).1
  unfolding try_reclaim_stale reclaim_script reclaim_if_old write_lock script_answer
  try_reclaim_stale-Holds ttl now worker_id max_age h =
      let key = idempotency_key task_id in
      let script =
        reclaim_script R fmt key worker_id (itoa ttl) (itoa (unix now))
          (itoa (div_trunc max_age second)) (itoa (unix now)) in
      ground (
        arith,
        L.eval_sha_lem script s,
        L.read-write key key (fmt.encode (lock_of R fmt worker_id now)) ttl s,
        C.to_number-itoa (unix now),
        C.to_number-itoa ttl,
        C.to_number-itoa (div_trunc max_age second),
        eq_refl key,
      )

  -- SetCompleted without error on a key that holds a record completes it.
  pub set_completed-Completed :
      (ttl now : ℤ) (rec : IdempotencyRecord)
      → Holds R fmt task_id rec s
      → (set_completed R fmt ttl now task_id s).0 ≡ none
      → Completed R fmt task_id (set_completed R fmt ttl now task_id s).1
  unfolding set_completed
  set_completed-Completed ttl now rec held ok =
      let key = idempotency_key task_id in
      let done : IdempotencyRecord = record {
        status = "completed";
        worker_id = "";
        started_at = "";
        completed_at = fmt.rfc3339 now;
      } in
      (
        done,
        refl,
        ground (
          arith,
          L.set_xx_lem key (fmt.encode done) ttl s,
          L.read-write key key (fmt.encode done) ttl s,
          eq_refl key,
        ),
      )
