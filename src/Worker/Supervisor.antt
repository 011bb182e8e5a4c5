-- ===== src/Worker/Supervisor.antt =====
-- internal/worker/supervisor.go: one worker goroutine, from its dispatch to its end.
-- Logging and spans are left out: they return nothing that the code reads.
pub mod Follows
pub mod Keys
pub mod Exhaustion
pub mod Slots
pub mod Genuine
pub mod Settles
pub mod Gate
use qtip_challenge.Base.{
  ℕ, ◌+◌, ◌-◌, String, ◌<>◌, Bool, true, false, not, ◌||◌, Option, none, some, List, [], ◌∷◌,
  if◌then◌else◌,
}
use qtip_challenge.Base.Int.{ℤ, pos, ◌+ℤ◌}
use qtip_challenge.Base.Decimal.{itoa}
use qtip_challenge.Domain.Errors.{GoError, plain, non_retryable, circuit_open, error_text, is_error}
use qtip_challenge.Domain.TaskStatus
use qtip_challenge.Domain.Task.{EmailTask, DlqEntry, write_map, is_retryable}
use qtip_challenge.Domain.Retry.{Float64, next_retry_delay}
use qtip_challenge.Config.Types.{WorkerConfig}
use qtip_challenge.Worker.Ports.{
  Reply, returns, panics, Failable, Answer, Ports, Run, M, ◌>>=◌, ◌>>◌, pure, modify, read_task,
  write_task, call, observe, note, lock_taken, completion_read, stale_reclaimed, lock_cleared,
  completion_marked, sent, dead_lettered, retry_scheduled, acknowledged, nacked, recorded,
  stats_recorded,
}

unfoldable pub attempt_key : String → ℤ → String
attempt_key task_id attempt = task_id <> ("#" <> itoa attempt)

-- errors.Is(err, ErrNonRetryable) || errors.Is(err, ErrCircuitOpen)
unfoldable pub is_permanent : GoError → Bool
is_permanent e = is_error non_retryable e || is_error circuit_open e

abbrev pub dead_reason : Bool → String
dead_reason permanent = if permanent then "non-retryable error" else "max attempts exceeded"

module _ (F : Float64) {W : Type 0} (cfg : WorkerConfig) (P : Ports F.Carrier W) where
  -- The result of these calls is dropped by the source, `_ = …`.
  abbrev pub ack : M W (Option GoError)
  ack = do t ← read_task; call (acknowledged t) (P.acknowledge t)

  abbrev pub nack : GoError → M W (Option GoError)
  nack cause = do t ← read_task; call (nacked t cause) (P.nack t cause)

  -- A failed clear is logged only.
  unfoldable pub clear_lock_and_nack : String → GoError → M W (Unit {0})
  clear_lock_and_nack id_key cause = do
    call (lock_cleared id_key) (P.clear_processing id_key)
    nack cause
    pure tt

  -- After a successful send.
  unfoldable pub delivered : String → M W (Unit {0})
  delivered id_key = do
    ack
    call (completion_marked id_key) (P.set_completed id_key)
    modify (λ r. record r { total_processed = r.total_processed + 1 })
    note (recorded "success")

  -- After SendToDLQ.
  unfoldable pub after_dlq : String → Option GoError → M W (Unit {0})
  after_dlq id_key (some e) = clear_lock_and_nack id_key e
  after_dlq id_key none = do ack; note (recorded "dead")

  unfoldable pub dead_letter : String → GoError → Bool → M W (Unit {0})
  dead_letter id_key send_err permanent = do
    t ← read_task
    at ← observe P.now
    let entry : DlqEntry = record {
      task = t;
      dead_at = at;
      failure_reason = dead_reason permanent;
      final_error = error_text send_err;
      attempt_history = [];
    }
    dlq_err ← call (dead_lettered entry) (P.send_to_dlq entry)
    after_dlq id_key dlq_err

  -- After ScheduleRetry.
  unfoldable pub after_schedule : String → Option GoError → M W (Unit {0})
  after_schedule id_key (some e) = clear_lock_and_nack id_key e
  after_schedule id_key none = do
    ack
    modify (λ r. record r { total_retried = r.total_retried + 1 })
    note (recorded "failed")

  unfoldable pub retry : String → M W (Unit {0})
  retry id_key = do
    modify (λ r. record r { task = record (r.task) { attempt = r.task.attempt +ℤ pos 1 } })
    t ← read_task
    x ← observe P.draw
    let delay = next_retry_delay F t x
    sched_err ← call (retry_scheduled t delay) (P.schedule_retry t delay)
    after_schedule id_key sched_err

  -- The error path after a failed send.
  unfoldable pub failed : String → GoError → M W (Unit {0})
  failed id_key send_err = do
    modify (λ r. record r {
      total_failed = r.total_failed + 1;
      task = record (r.task) { last_error = error_text send_err; status = TaskStatus.failed };
    })
    t ← read_task
    if is_permanent send_err || not (is_retryable t)
        then dead_letter id_key send_err (is_permanent send_err)
        else retry id_key

  unfoldable pub after_send : String → Option GoError → M W (Unit {0})
  after_send id_key none = delivered id_key
  after_send id_key (some e) = failed id_key e

  unfoldable pub deliver : String → M W (Unit {0})
  deliver id_key = do t ← read_task; send_err ← call (sent t) (P.send t); after_send id_key send_err

  -- After TryReclaimStale, whose error is logged only.
  unfoldable pub after_reclaim : String → Bool × Option GoError → M W (Unit {0})
  after_reclaim id_key (true, _) = deliver id_key
  after_reclaim id_key (false, _) = do nack (plain "idempotency lock actively held"); pure tt

  -- After IsCompleted, whose error is dropped.
  unfoldable pub after_is_completed : String → Bool × Option GoError → M W (Unit {0})
  after_is_completed id_key (true, _) = do ack; note (recorded "deduped")
  after_is_completed id_key (false, _) = do
    answer ←
        call (stale_reclaimed id_key)
          (P.try_reclaim_stale id_key cfg.consumer_name cfg.claim_idle_threshold)
    after_reclaim id_key answer

  -- After SetProcessing, whose error is logged only.
  unfoldable pub after_set_processing : String → Bool × Option GoError → M W (Unit {0})
  after_set_processing id_key (true, _) = deliver id_key
  after_set_processing id_key (false, _) = do
    answer ← call (completion_read id_key) (P.is_completed id_key)
    after_is_completed id_key answer

  -- The body of processTask between its defers.
  unfoldable pub process_body : M W (Unit {0})
  process_body = do
    t ← read_task
    let id_key = attempt_key t.id t.attempt
    answer ← call (lock_taken id_key) (P.set_processing id_key cfg.consumer_name)
    after_set_processing id_key answer

  -- The deferred recover: the panicking task is flagged and nacked.
  unfoldable pub recover : Reply (Unit {0}) × Run W → Reply (Unit {0}) × Run W
  recover (returns x, r) = (returns x, r)
  recover (panics v, r) =
      let flagged = record (r.task) { metadata = write_map r.task.metadata "poison" "true" } in
      (do
        modify (λ r. record r { task = flagged; total_failed = r.total_failed + 1 })
        nack (plain ("panic: " <> v))
        pure tt)
        r

  -- The deferred release of the semaphore; a panic of the deferred nack goes on past it.
  unfoldable pub release : Reply (Unit {0}) × Run W → Reply (Unit {0}) × Run W
  release (a, r) = (
    a,
    record r {
      tokens = r.tokens - 1;
      active = r.active - 1;
      log = stats_recorded (r.active - 1) ∷ r.log;
    },
  )

  unfoldable pub process_task : M W (Unit {0})
  process_task r = release (recover (process_body (record r { active = r.active + 1 })))
