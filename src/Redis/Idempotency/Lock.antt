-- ===== src/Redis/Idempotency/Lock.antt =====
-- The idempotency key of an attempt as a lock: internal/adapters/redis/idempotency.go.
use qtip_challenge.Base.{
  Bool, List, [], ◌∷◌, All, String, true, false, none, some, ◌≡◌, ◌⊎◌, inl, inr, refl, arith,
  eq_iff, eq_refl, is_some, str_eq,
}
use qtip_challenge.Base.Int.{ℤ, ◌-ℤ◌, ◌≤ℤ◌, ◌<ℤ◌, div_trunc}
use qtip_challenge.Base.Decimal.{itoa}
use qtip_challenge.Domain.Retry.{second}
use qtip_challenge.Redis.Client.{KeyCommands, IsRedis}
use qtip_challenge.Redis.Idempotency.{
  idempotency_key, IdempotencyRecord, Formats, unix, processing, write_lock, idempotency_script,
  reclaim_if_old, reclaim_script, script_answer, set_processing, read_completed, is_completed,
  clear_processing, try_reclaim_stale,
}

-- Documented behaviour of the encoders: what was written is read back.
pub record IsFaithful (fmt : Formats) : Type 0 where
  pub decode-encode : (r : IdempotencyRecord) → fmt.decode (fmt.encode r) ≡ some r
  pub to_number-itoa : (n : ℤ) → fmt.to_number (itoa n) ≡ some n

module _ {S : Type 0} (R : KeyCommands S) (fmt : Formats) where
  -- The record under the key of a task.
  abbrev pub Holds : String → IdempotencyRecord → S → Type 0
  Holds task_id rec s = R.read (idempotency_key task_id) s ≡ some (fmt.encode rec)

  abbrev pub lock_of : String → ℤ → IdempotencyRecord
  lock_of worker_id now = processing R fmt worker_id (itoa (unix now))

  -- The answers of SetProcessing to these contenders, each with its time, one after the other.
  pub contend : ℤ → String → List (ℤ × String) → S → List Bool × S
  contend ttl task_id [] s = ([], s)
  contend ttl task_id ((now, worker_id) ∷ rest) s =
      let ((acquired, _), s') = set_processing R fmt ttl now task_id worker_id s in
      let (answers, t) = contend ttl task_id rest s' in (acquired ∷ answers, t)

module _ {S : Type 0} (R : KeyCommands S) (fmt : Formats) (L : IsRedis R) (C : IsFaithful fmt)
    (ttl now : ℤ) (task_id worker_id : String) (s : S) where
  -- An acquired lock is held by the caller.
  pub set_processing-Holds :
      (set_processing R fmt ttl now task_id worker_id s).0.0 ≡ true
      → Holds R fmt task_id
          (lock_of R fmt worker_id now)
          (set_processing R fmt ttl now task_id worker_id s).1
  unfolding set_processing idempotency_script write_lock script_answer
  set_processing-Holds h =
      let key = idempotency_key task_id in
      let script = idempotency_script R fmt key worker_id (itoa ttl) (itoa (unix now)) in
      ground (
        arith,
        L.eval_sha_lem script s,
        L.read-write key key (fmt.encode (lock_of R fmt worker_id now)) ttl s,
        C.to_number-itoa ttl,
        eq_refl key,
      )

  -- A key in state processing or completed refuses the lock and stays as it is.
  pub set_processing_refused :
      (rec : IdempotencyRecord)
      → (rec.status ≡ "processing") ⊎ (rec.status ≡ "completed")
      → Holds R fmt task_id rec s
      → ((set_processing R fmt ttl now task_id worker_id s).0.0 ≡ false)
        × ((set_processing R fmt ttl now task_id worker_id s).1 ≡ s)
  unfolding set_processing idempotency_script script_answer
  set_processing_refused rec h held =
      let key = idempotency_key task_id in
      let script = idempotency_script R fmt key worker_id (itoa ttl) (itoa (unix now)) in
      ground (
        arith,
        L.eval_sha_lem script s,
        C.decode-encode rec,
        eq_iff rec.status "completed",
        eq_iff rec.status "processing",
      )

  -- A failed clear aside, a cleared key can be locked: the next SetProcessing acquires or reports
  -- an error.
  clear-set_processing :
      (s' : S)
      → R.read (idempotency_key task_id) s' ≡ none
      → ((set_processing R fmt ttl now task_id worker_id s').0 ≡ (true, none))
        ⊎ (is_some (set_processing R fmt ttl now task_id worker_id s').0.1 ≡ true)
  unfolding set_processing idempotency_script write_lock script_answer
  clear-set_processing s' free =
      let key = idempotency_key task_id in
      let script = idempotency_script R fmt key worker_id (itoa ttl) (itoa (unix now)) in
      ground (arith, L.eval_sha_lem script s', C.to_number-itoa ttl)

  cleared :
      (clear_processing R fmt task_id s).0 ≡ none
      → R.read (idempotency_key task_id) (clear_processing R fmt task_id s).1 ≡ none
  unfolding clear_processing
  cleared h =
      let key = idempotency_key task_id in
      ground (arith, L.del_lem key s, L.read-delete key key s, eq_refl key)

  -- Both answers of a reclaim of a held lock.
  try_reclaim_stale_lem :
      (holder : String) (since max_age : ℤ)
      → Holds R fmt task_id (lock_of R fmt holder since) s
      → let x = try_reclaim_stale R fmt ttl now task_id worker_id max_age s in
        (unix now -ℤ unix since <ℤ div_trunc max_age second → (x.0.0 ≡ false) × (x.1 ≡ s))
        × (x.0.0 ≡ true
            → (div_trunc max_age second ≤ℤ unix now -ℤ unix since)
              × Holds R fmt task_id (lock_of R fmt worker_id now) x.1)
  unfolding try_reclaim_stale reclaim_script reclaim_if_old write_lock script_answer
  try_reclaim_stale_lem holder since max_age held =
      let key = idempotency_key task_id in
      let script =
        reclaim_script R fmt key worker_id (itoa ttl) (itoa (unix now))
          (itoa (div_trunc max_age second)) (itoa (unix now)) in
      ground (
        arith,
        held,
        L.eval_sha_lem script s,
        L.read-write key key (fmt.encode (lock_of R fmt worker_id now)) ttl s,
        C.decode-encode (lock_of R fmt holder since),
        C.to_number-itoa (unix since),
        C.to_number-itoa (unix now),
        C.to_number-itoa ttl,
        C.to_number-itoa (div_trunc max_age second),
        eq_refl key,
        eq_refl "processing",
      )

  -- On a server that behaves as documented, a completed key refuses SetProcessing and
  -- TryReclaimStale, both leave the server as it is, and IsCompleted answers yes or reports an error.
  pub completed_refuses :
      (rec : IdempotencyRecord) (max_age : ℤ)
      → rec.status ≡ "completed"
      → Holds R fmt task_id rec s
      → ((set_processing R fmt ttl now task_id worker_id s).0.0 ≡ false)
        × ((set_processing R fmt ttl now task_id worker_id s).1 ≡ s)
        × ((try_reclaim_stale R fmt ttl now task_id worker_id max_age s).0.0 ≡ false)
        × ((try_reclaim_stale R fmt ttl now task_id worker_id max_age s).1 ≡ s)
        × (((is_completed R fmt task_id s).0.0 ≡ true)
            ⊎ (is_some (is_completed R fmt task_id s).0.1 ≡ true))
  unfolding try_reclaim_stale reclaim_script script_answer is_completed read_completed
  completed_refuses rec max_age done held =
      let key = idempotency_key task_id in
      let script =
        reclaim_script R fmt key worker_id (itoa ttl) (itoa (unix now))
          (itoa (div_trunc max_age second)) (itoa (unix now)) in
      let refused = set_processing_refused rec (inr done) held in
      let other : str_eq rec.status "processing" ≡ false = rw done in
      ground (
        arith,
        refused,
        other,
        L.eval_sha_lem script s,
        L.get_lem key s,
        C.decode-encode rec,
        eq_iff rec.status "completed",
        eq_iff rec.status "processing",
      )

  -- On a server that behaves as documented, a lock that has been held for less than the threshold is
  -- not reclaimed, and the server stays as it is.
  pub try_reclaim_stale_young :
      (holder : String) (since max_age : ℤ)
      → Holds R fmt task_id (lock_of R fmt holder since) s
      → unix now -ℤ unix since <ℤ div_trunc max_age second
      → ((try_reclaim_stale R fmt ttl now task_id worker_id max_age s).0.0 ≡ false)
        × ((try_reclaim_stale R fmt ttl now task_id worker_id max_age s).1 ≡ s)
  try_reclaim_stale_young holder since max_age held young =
      (try_reclaim_stale_lem holder since max_age held).0 young

  -- On a server that behaves as documented, a held lock that is reclaimed has been held for at least
  -- the threshold, and is held by the caller afterwards, from now on.
  pub try_reclaim_stale_moves :
      (holder : String) (since max_age : ℤ)
      → Holds R fmt task_id (lock_of R fmt holder since) s
      → (try_reclaim_stale R fmt ttl now task_id worker_id max_age s).0.0 ≡ true
      → (div_trunc max_age second ≤ℤ unix now -ℤ unix since)
        × Holds R fmt task_id
            (lock_of R fmt worker_id now)
            (try_reclaim_stale R fmt ttl now task_id worker_id max_age s).1
  try_reclaim_stale_moves holder since max_age held h =
      (try_reclaim_stale_lem holder since max_age held).1 h

module _ {S : Type 0} (R : KeyCommands S) (fmt : Formats) (L : IsRedis R) (C : IsFaithful fmt) where
  contend_refused :
      (ttl : ℤ) (task_id : String) (rec : IdempotencyRecord) (rivals : List (ℤ × String)) (s : S)
      → rec.status ≡ "processing"
      → Holds R fmt task_id rec s
      → let (answers, t) = contend R fmt ttl task_id rivals s in
        All (λ b. b ≡ false) answers × Holds R fmt task_id rec t
  unfolding contend
  contend_refused ttl task_id rec [] s h held = (tt, held)
  contend_refused ttl task_id rec ((now, w) ∷ rest) s h held =
      let (answer, same) = set_processing_refused R fmt L C ttl now task_id w s rec (inl h) held in
      let more = contend_refused ttl task_id rec rest s h held in
      rw (answer, same) ((refl, more.0), more.1)

  -- On a server that behaves as documented, once a SetProcessing has acquired the lock of an
  -- attempt, none of any sequence of further SetProcessing calls for that attempt acquires it, by
  -- whichever workers and whenever, and the first worker stays recorded as the holder.
  pub set_processing_excludes :
      (ttl now : ℤ) (task_id worker_id : String) (rivals : List (ℤ × String)) (s : S)
      → (set_processing R fmt ttl now task_id worker_id s).0.0 ≡ true
      → let (answers, t) =
          contend R fmt ttl task_id rivals (set_processing R fmt ttl now task_id worker_id s).1 in
        All (λ b. b ≡ false) answers × Holds R fmt task_id (lock_of R fmt worker_id now) t
  set_processing_excludes ttl now task_id worker_id rivals s h =
      contend_refused ttl task_id (lock_of R fmt worker_id now) rivals
        (set_processing R fmt ttl now task_id worker_id s).1 refl
        (set_processing-Holds R fmt L C ttl now task_id worker_id s h)

  -- On a server that behaves as documented, after a ClearProcessing without error the next SetProcessing acquires the lock, or reports an
  -- error: the attempt is not taken for a duplicate.
  clear_processing-set_processing :
      (ttl now : ℤ) (task_id worker_id : String) (s : S)
      → (clear_processing R fmt task_id s).0 ≡ none
      → let x =
          set_processing R fmt ttl now task_id worker_id (clear_processing R fmt task_id s).1 in
        (x.0 ≡ (true, none)) ⊎ (is_some x.0.1 ≡ true)
  clear_processing-set_processing ttl now task_id worker_id s h =
      clear-set_processing R fmt L C ttl now task_id worker_id s
        (clear_processing R fmt task_id s).1 (cleared R fmt L C ttl now task_id worker_id s h)
