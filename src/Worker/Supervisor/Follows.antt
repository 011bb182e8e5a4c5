-- ===== src/Worker/Supervisor/Follows.antt =====
-- Every run of a worker goroutine keeps the protocol, whatever the ports answer.
use qtip_challenge.Base.{
  ◌+◌, String, Bool, true, false, not, ◌||◌, Option, none, some, [], ◌∷◌, ◌≡◌, ◌⊎◌, refl, arith,
}
use qtip_challenge.Domain.Errors.{GoError, error_text}
use qtip_challenge.Domain.TaskStatus
use qtip_challenge.Domain.Task.{EmailTask, is_retryable, is_poison_message}
use qtip_challenge.Domain.Retry.{Float64}
use qtip_challenge.Config.Types.{WorkerConfig}
use qtip_challenge.Worker.Ports.{
  Reply, returns, panics, Event, Ports, Run, M, call, ◌>>=◌, sent, stale_reclaimed, completion_read,
  lock_taken,
}
use qtip_challenge.Worker.Protocol.{
  closed, left_pending, panicking, unstored, delivered, undelivered, held, refused, incomplete,
  idle, busy, duplicate, branch, attempt, phase_of, Ends,
}
use qtip_challenge.Worker.Supervisor.{
  is_permanent, clear_lock_and_nack, delivered as finish, after_dlq, dead_letter, after_schedule,
  retry, failed, after_send, deliver, attempt_key, after_reclaim, after_is_completed,
  after_set_processing, process_body, recover, release, process_task,
}

-- Where a step leaves the log: at an end, or at a panic that is still to be recovered.
abbrev Lands : {W : Type 0} → Reply (Unit {0}) × Run W → Type 0
Lands (returns _, r) = (phase_of r.log ≡ some closed) ⊎ (phase_of r.log ≡ some left_pending)
Lands (panics v, r) = phase_of r.log ≡ some panicking

-- The flags of a failed task change nothing of the retry decision.
is_retryable-failed :
    (t : EmailTask) (message : String) (s : String)
    → is_retryable (record t { last_error = message; status = s }) ≡ is_retryable t
unfolding is_retryable is_poison_message
is_retryable-failed t message s = refl

-- A call lands if what follows it lands on every reply.
call-Lands :
    {W A : Type 0} (entry : Reply A → Event) (f : W → Reply A × W) (k : A → M W (Unit {0}))
    (r : Run W)
    → ((x : A) (w : W) → Lands (k x (record r { world = w; log = entry (returns x) ∷ r.log })))
    → ((v : String) (w : W) → phase_of (entry (panics v) ∷ r.log) ≡ some panicking)
    → Lands ((call entry f >>= k) r)
call-Lands {W} {A} entry f k r on_return on_panic = split (f r.world)
  where
    split : (p : Reply A × W) → Lands ((call entry (λ (w : W). p) >>= k) r)
    split (returns x, w) = on_return x w
    split (panics v, w) = on_panic v w

module _ (F : Float64) {W : Type 0} (cfg : WorkerConfig) (P : Ports F.Carrier W) where
  clear-Lands :
      (k : String) (e : GoError) (r : Run W)
      → phase_of r.log ≡ some unstored
      → Lands (clear_lock_and_nack F cfg P k e r)
  unfolding clear_lock_and_nack phase_of
  clear-Lands k e r h = ground arith

  finish-Lands :
      (k : String) (r : Run W) → phase_of r.log ≡ some delivered → Lands (finish F cfg P k r)
  unfolding finish phase_of
  finish-Lands k r h = ground arith

  dead_letter-Lands :
      (k : String) (e : GoError) (b : Bool) (r : Run W)
      → phase_of r.log ≡ some (undelivered true)
      → Lands (dead_letter F cfg P k e b r)
  unfolding dead_letter after_dlq clear_lock_and_nack phase_of
  dead_letter-Lands k e b r h = ground arith

  retry-Lands :
      (k : String) (r : Run W)
      → phase_of r.log ≡ some (undelivered false)
      → Lands (retry F cfg P k r)
  unfolding retry after_schedule clear_lock_and_nack phase_of
  retry-Lands k r h = ground arith

  failed-Lands :
      (k : String) (e : GoError) (r : Run W)
      → phase_of r.log ≡ some (undelivered (is_permanent e || not (is_retryable r.task)))
      → Lands (failed F cfg P k e r)
  unfolding failed
  failed-Lands k e r h =
      let t = record (r.task) { last_error = error_text e; status = TaskStatus.failed } in
      let r' = record r { total_failed = r.total_failed + 1; task = t } in
      ground (
        arith,
        is_retryable-failed r.task (error_text e) TaskStatus.failed,
        dead_letter-Lands k e (is_permanent e) r',
        retry-Lands k r',
      )

  after_send-Lands :
      (k : String) (x : Option GoError) (r : Run W)
      → phase_of r.log ≡ some (attempt r.task (returns x))
      → Lands (after_send F cfg P k x r)
  unfolding after_send phase_of
  after_send-Lands k none r h = finish-Lands k r h
  after_send-Lands k (some e) r h = failed-Lands k e r h

  deliver-Lands :
      (k : String) (r : Run W) → phase_of r.log ≡ some held → Lands (deliver F cfg P k r)
  unfolding deliver phase_of
  deliver-Lands k r h =
      call-Lands (sent r.task) (P.send r.task) (after_send F cfg P k) r
        (λ x w. after_send-Lands k x _ (ground arith)) (λ v w. ground arith)

  after_reclaim-Lands :
      (k : String) (x : Bool × Option GoError) (r : Run W)
      → phase_of r.log ≡ some (branch (returns x) held busy)
      → Lands (after_reclaim F cfg P k x r)
  unfolding after_reclaim phase_of
  after_reclaim-Lands k (true, _) r h = deliver-Lands k r h
  after_reclaim-Lands k (false, _) r h = ground arith

  after_is_completed-Lands :
      (k : String) (x : Bool × Option GoError) (r : Run W)
      → phase_of r.log ≡ some (branch (returns x) duplicate incomplete)
      → Lands (after_is_completed F cfg P k x r)
  unfolding after_is_completed phase_of
  after_is_completed-Lands k (true, _) r h = ground arith
  after_is_completed-Lands k (false, _) r h =
      call-Lands (stale_reclaimed k)
        (P.try_reclaim_stale k cfg.consumer_name cfg.claim_idle_threshold) (after_reclaim F cfg P k)
        r (λ x w. after_reclaim-Lands k x _ (ground arith)) (λ v w. ground arith)

  after_set_processing-Lands :
      (k : String) (x : Bool × Option GoError) (r : Run W)
      → phase_of r.log ≡ some (branch (returns x) held refused)
      → Lands (after_set_processing F cfg P k x r)
  unfolding after_set_processing phase_of
  after_set_processing-Lands k (true, _) r h = deliver-Lands k r h
  after_set_processing-Lands k (false, _) r h =
      call-Lands (completion_read k) (P.is_completed k) (after_is_completed F cfg P k) r
        (λ x w. after_is_completed-Lands k x _ (ground arith)) (λ v w. ground arith)

  process_body-Lands : (r : Run W) → phase_of r.log ≡ some idle → Lands (process_body F cfg P r)
  unfolding process_body phase_of
  process_body-Lands r h =
      let k = attempt_key r.task.id r.task.attempt in
      call-Lands (lock_taken k) (P.set_processing k cfg.consumer_name)
        (after_set_processing F cfg P k) r (λ x w. after_set_processing-Lands k x _ (ground arith))
        (λ v w. ground arith)

  recover-Ends :
      (x : Reply (Unit {0}) × Run W) → Lands x → let y = recover F cfg P x in Ends y.0 y.1.log
  unfolding recover phase_of
  recover-Ends (returns _, r) h = ground arith
  recover-Ends (panics v, r) h = ground arith

  release-Ends :
      (x : Reply (Unit {0}) × Run W)
      → Ends x.0 x.1.log
      → let y = release F cfg P x in Ends y.0 y.1.log
  unfolding release phase_of
  release-Ends (returns _, r) h = ground arith
  release-Ends (panics v, r) h = ground arith

  -- Whatever the ports answer, and wherever a call panics, the calls of processTask, from an empty
  -- log on, follow the protocol from its start to one of its ends; a panic leaves processTask only if the nack of a
  -- recovered panic panicked too.
  pub process_task-Ends :
      (r : Run W) → r.log ≡ [] → let (a, r') = process_task F cfg P r in Ends a r'.log
  unfolding process_task phase_of
  process_task-Ends r h =
      let begun = record r { active = r.active + 1 } in
      release-Ends (recover F cfg P (process_body F cfg P begun))
        (recover-Ends (process_body F cfg P begun) (process_body-Lands begun (ground arith)))
