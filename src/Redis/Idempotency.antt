-- ===== src/Redis/Idempotency.antt =====
-- internal/adapters/redis/idempotency.go with the two Lua scripts of scripts.go. The client's
-- EVALSHA takes the meaning of a script in place of its digest.
pub mod Lock
pub mod Completion
use qtip_challenge.Base.{
  ℕ, String, ◌<>◌, Bool, true, false, not, Option, none, some, str_eq, if◌then◌else◌,
}
use qtip_challenge.Base.Int.{ℤ, pos, ◌-ℤ◌, ltb_ℤ, eqb_ℤ, div_floor, div_trunc}
use qtip_challenge.Base.Decimal.{itoa}
use qtip_challenge.Domain.Errors.{GoError, plain, wrap}
use qtip_challenge.Domain.Retry.{second}
use qtip_challenge.Redis.Client.{Cmd, value, nil_reply, error, Script, KeyCommands}

unfoldable pub idempotency_key : String → String
idempotency_key task_id = "idempotency:" <> task_id

pub record IdempotencyRecord : Type 0 where
  pub status : String
  pub worker_id : String
  pub started_at : String
  pub completed_at : String

-- `encoding/json` and `cjson` on such records (the two write the same fields; a
-- record of texts is always encoded), Lua's `tonumber`,
-- and the two clock formats.
pub record Formats : Type 0 where
  pub encode : IdempotencyRecord → String
  pub decode : String → Option IdempotencyRecord
  -- the error of json.Unmarshal where `decode` gives none
  pub decode_error : String → GoError
  pub to_number : String → Option ℤ
  -- time.Time.Format(time.RFC3339), from nanoseconds
  pub rfc3339 : ℤ → String

-- time.Time.Unix, for instants counted in nanoseconds from 1970
abbrev pub unix : ℤ → ℤ
unix now = div_floor now second

module _ {S : Type 0} (R : KeyCommands S) (fmt : Formats) where
  abbrev pub processing : String → String → IdempotencyRecord
  processing worker_id started_at = record {
    status = "processing";
    worker_id = worker_id;
    started_at = started_at;
    completed_at = "";
  }

  -- redis.call('SET', key, payload, 'EX', ttl) and `return 1`, in both scripts
  unfoldable pub write_lock : String → String → String → String → Script S
  write_lock key worker_id ttl started_at s = elim (fmt.to_number ttl) [
    | none ↦ (none, s)
    | some n ↦ (some (pos 1), R.write key (fmt.encode (processing worker_id started_at)) n s)
  ]

  unfoldable pub idempotency_script : String → String → String → String → Script S
  unfolding write_lock
  idempotency_script key worker_id ttl started_at s = elim (R.read key s) [
    | none ↦ write_lock key worker_id ttl started_at s
    | some existing ↦ elim (fmt.decode existing) [
      | none ↦ (none, s)
      | some rec ↦
          if str_eq rec.status "completed"
          then (some (pos 0), s)
          else if str_eq rec.status "processing"
          then (some (pos 0), s)
          else write_lock key worker_id ttl started_at s
    ]
  ]

  -- The comparison of the ages; a nil argument is an error.
  unfoldable pub reclaim_if_old :
      String → String → String → String → ℤ → Option ℤ → Option ℤ → Script S
  unfolding write_lock
  reclaim_if_old key worker_id ttl started_at existing_time (some max_age) (some now_unix) s =
      if ltb_ℤ (now_unix -ℤ existing_time) max_age
      then (some (pos 0), s)
      else write_lock key worker_id ttl started_at s
  reclaim_if_old key worker_id ttl started_at existing_time _ _ s = (none, s)

  unfoldable pub reclaim_script : String → String → String → String → String → String → Script S
  unfolding reclaim_if_old
  reclaim_script key worker_id ttl started_at max_age now_unix s = elim (R.read key s) [
    | none ↦ (some (pos 0), s)
    | some existing ↦ elim (fmt.decode existing) [
      | none ↦ (none, s)
      | some rec ↦
          if not (str_eq rec.status "processing")
          then (some (pos 0), s)
          else elim (fmt.to_number rec.started_at) [
            | none ↦ (some (pos 0), s)
            | some existing_time ↦
                reclaim_if_old key worker_id ttl started_at existing_time (fmt.to_number max_age)
                  (fmt.to_number now_unix) s
          ]
    ]
  ]

  -- `result == 1` of an Int64 reply; `redis.Nil` leaves the zero.
  unfoldable pub script_answer : String → Cmd ℤ → Bool × Option GoError
  script_answer what (value n) = (eqb_ℤ n (pos 1), none)
  script_answer what nil_reply = (false, none)
  script_answer what (error e) = (false, some (wrap what e))

  -- `ttl_seconds` is cfg.Retry.DLQTTLSeconds, `now` what time.Now returns.
  unfoldable pub set_processing : ℤ → ℤ → String → String → S → (Bool × Option GoError) × S
  set_processing ttl_seconds now task_id worker_id s =
      let script =
        idempotency_script (idempotency_key task_id) worker_id (itoa ttl_seconds)
          (itoa (unix now)) in
      let (reply, s') = R.eval_sha script s in
      (script_answer ("idempotency: SetProcessing " <> (task_id <> ": ")) reply, s')

  unfoldable pub set_completed : ℤ → ℤ → String → S → Option GoError × S
  set_completed ttl_seconds now task_id s =
      let done : IdempotencyRecord = record {
        status = "completed";
        worker_id = "";
        started_at = "";
        completed_at = fmt.rfc3339 now;
      } in
      let (reply, s') = R.set_xx (idempotency_key task_id) (fmt.encode done) ttl_seconds s in
      elim reply [
        | value _ ↦ (none, s')
        | nil_reply ↦ (none, s')
        | error e ↦ (some (wrap ("idempotency: SetCompleted " <> (task_id <> ": ")) e), s')
      ]

  -- The stored bytes as an answer.
  unfoldable pub read_completed : String → String → Bool × Option GoError
  read_completed task_id raw = elim (fmt.decode raw) [
    | none ↦ (
      false,
      some (
          wrap ("idempotency: IsCompleted " <> (task_id <> ": unmarshal: "))
            (fmt.decode_error raw)),
    )
    | some rec ↦ (str_eq rec.status "completed", none)
  ]

  unfoldable pub is_completed : String → S → (Bool × Option GoError) × S
  unfolding read_completed
  is_completed task_id s =
      let (reply, s') = R.get (idempotency_key task_id) s in
      elim reply [
        | value raw ↦ (read_completed task_id raw, s')
        | nil_reply ↦ ((false, none), s')
        | error e ↦ ((false, some (wrap ("idempotency: IsCompleted " <> (task_id <> ": ")) e)), s')
      ]

  unfoldable pub clear_processing : String → S → Option GoError × S
  clear_processing task_id s =
      let (reply, s') = R.del (idempotency_key task_id) s in
      elim reply [
        | value _ ↦ (none, s')
        | nil_reply ↦
            (some (plain ("idempotency: ClearProcessing " <> (task_id <> ": redis: nil"))), s')
        | error e ↦ (some (wrap ("idempotency: ClearProcessing " <> (task_id <> ": ")) e), s')
      ]

  -- `max_age` is a duration in nanoseconds, truncated to seconds as `int64(d.Seconds())` does.
  unfoldable pub try_reclaim_stale : ℤ → ℤ → String → String → ℤ → S → (Bool × Option GoError) × S
  try_reclaim_stale ttl_seconds now task_id worker_id max_age s =
      let script =
        reclaim_script (idempotency_key task_id) worker_id (itoa ttl_seconds) (itoa (unix now))
          (itoa (div_trunc max_age second)) (itoa (unix now)) in
      let (reply, s') = R.eval_sha script s in
      (script_answer ("idempotency: TryReclaimStale " <> (task_id <> ": ")) reply, s')
