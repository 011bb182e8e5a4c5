-- ===== src/Worker/Supervisor/Genuine.antt =====
-- What the calls of processTask carry: their keys, the task that is sent, the entry that is
-- dead-lettered and the retry that is scheduled.
use qtip_challenge.Base.{
  ◌+◌, String, Bool, true, false, Option, none, some, [], ◌∷◌, ◌≡◌, ◌⊎◌, refl, arith, All,
}
use qtip_challenge.Base.Int.{pos, ◌+ℤ◌, ◌≤ℤ◌}
use qtip_challenge.Domain.Errors.{GoError, error_text}
use qtip_challenge.Domain.TaskStatus
use qtip_challenge.Domain.Task.{EmailTask, is_retryable, is_poison_message}
use qtip_challenge.Domain.Retry.{Float64, default_max_delay}
use qtip_challenge.Domain.Retry.Bounds.{next_retry_delay-le}
use qtip_challenge.Config.Types.{WorkerConfig}
use qtip_challenge.Worker.Ports.{
  Reply, returns, panics, Event, Ports, Run, M, call, ◌>>=◌, lock_taken, completion_read,
  stale_reclaimed, lock_cleared, completion_marked, sent, dead_lettered, retry_scheduled,
}
use qtip_challenge.Worker.Supervisor.{
  is_permanent, attempt_key, clear_lock_and_nack, delivered, after_dlq, dead_letter, after_schedule,
  retry, failed, after_send, deliver, after_reclaim, after_is_completed, after_set_processing,
  process_body, recover, release, process_task,
}

-- The task as the error path leaves it, with the text of the error.
abbrev pub failed_task : EmailTask → String → EmailTask
failed_task t message = record t { last_error = message; status = TaskStatus.failed }

-- A call of a goroutine that was handed `t`.
abbrev pub Genuine : EmailTask → Event → Type 0
Genuine t (lock_taken k a) = k ≡ attempt_key t.id t.attempt
Genuine t (completion_read k a) = k ≡ attempt_key t.id t.attempt
Genuine t (stale_reclaimed k a) = k ≡ attempt_key t.id t.attempt
Genuine t (lock_cleared k a) = k ≡ attempt_key t.id t.attempt
Genuine t (completion_marked k a) = k ≡ attempt_key t.id t.attempt
Genuine t (sent u a) = u ≡ t
Genuine t (dead_lettered entry a) =
    (entry.task ≡ failed_task t entry.final_error)
    × ((entry.failure_reason ≡ "non-retryable error")
        ⊎ ((entry.failure_reason ≡ "max attempts exceeded") × (is_retryable t ≡ false)))
Genuine t (retry_scheduled u delay a) =
    (u ≡ record (failed_task t u.last_error) { attempt = t.attempt +ℤ pos 1 })
    × (is_retryable t ≡ true)
    × (delay ≤ℤ default_max_delay)
Genuine t _ = Unit

-- The calls so far are genuine.
abbrev Sound : {W : Type 0} → EmailTask → Reply (Unit {0}) × Run W → Type 0
Sound t x = All (Genuine t) x.1.log

call-Sound :
    {W A : Type 0} (t : EmailTask) (entry : Reply A → Event) (f : W → Reply A × W)
    (k : A → M W (Unit {0})) (r : Run W)
    → ((a : Reply A) → Genuine t (entry a))
    → ((x : A) (w : W) → Sound t (k x (record r { world = w; log = entry (returns x) ∷ r.log })))
    → All (Genuine t) r.log
    → Sound t ((call entry f >>= k) r)
call-Sound {W} {A} t entry f k r genuine on_return so_far = split (f r.world)
  where
    split : (p : Reply A × W) → Sound t ((call entry (λ (w : W). p) >>= k) r)
    split (returns x, w) = on_return x w
    split (panics v, w) = (genuine (panics v), so_far)

is_retryable-failed :
    (t : EmailTask) (message : String) → is_retryable (failed_task t message) ≡ is_retryable t
unfolding is_retryable is_poison_message
is_retryable-failed t message = refl

module _ (F : Float64) {W : Type 0} (cfg : WorkerConfig) (P : Ports F.Carrier W)
    (t : EmailTask) where
  clear-Sound :
      (e : GoError) (r : Run W)
      → All (Genuine t) r.log
      → Sound t (clear_lock_and_nack F cfg P (attempt_key t.id t.attempt) e r)
  unfolding clear_lock_and_nack
  clear-Sound e r h = ground arith

  delivered-Sound :
      (r : Run W)
      → All (Genuine t) r.log
      → Sound t (delivered F cfg P (attempt_key t.id t.attempt) r)
  unfolding delivered
  delivered-Sound r h = ground arith

  dead_letter-Sound :
      (e : GoError) (permanent : Bool) (r : Run W)
      → r.task ≡ failed_task t (error_text e)
      → (permanent ≡ true) ⊎ (is_retryable t ≡ false)
      → All (Genuine t) r.log
      → Sound t (dead_letter F cfg P (attempt_key t.id t.attempt) e permanent r)
  unfolding dead_letter after_dlq clear_lock_and_nack
  dead_letter-Sound e permanent r same why h = ground arith

  retry-Sound :
      (e : GoError) (r : Run W)
      → r.task ≡ failed_task t (error_text e)
      → is_retryable t ≡ true
      → All (Genuine t) r.log
      → Sound t (retry F cfg P (attempt_key t.id t.attempt) r)
  unfolding retry after_schedule clear_lock_and_nack
  retry-Sound e r same why h =
      let u = record (r.task) { attempt = r.task.attempt +ℤ pos 1 } in
      ground (arith, next_retry_delay-le F u (P.draw r.world).0)

  failed-Sound :
      (e : GoError) (r : Run W)
      → r.task ≡ t
      → All (Genuine t) r.log
      → Sound t (failed F cfg P (attempt_key t.id t.attempt) e r)
  unfolding failed
  failed-Sound e r same h =
      let u = failed_task r.task (error_text e) in
      let r' = record r { total_failed = r.total_failed + 1; task = u } in
      ground (
        arith,
        is_retryable-failed r.task (error_text e),
        dead_letter-Sound e (is_permanent e) r',
        retry-Sound e r',
      )

  after_send-Sound :
      (x : Option GoError) (r : Run W)
      → r.task ≡ t
      → All (Genuine t) r.log
      → Sound t (after_send F cfg P (attempt_key t.id t.attempt) x r)
  unfolding after_send
  after_send-Sound none r same h = delivered-Sound r h
  after_send-Sound (some e) r same h = failed-Sound e r same h

  deliver-Sound :
      (r : Run W)
      → r.task ≡ t
      → All (Genuine t) r.log
      → Sound t (deliver F cfg P (attempt_key t.id t.attempt) r)
  unfolding deliver
  deliver-Sound r same h =
      call-Sound t (sent r.task) (P.send r.task) (after_send F cfg P (attempt_key t.id t.attempt)) r
        (λ a. same) (λ x w. after_send-Sound x _ same (same, h)) h

  after_reclaim-Sound :
      (x : Bool × Option GoError) (r : Run W)
      → r.task ≡ t
      → All (Genuine t) r.log
      → Sound t (after_reclaim F cfg P (attempt_key t.id t.attempt) x r)
  unfolding after_reclaim
  after_reclaim-Sound (true, _) r same h = deliver-Sound r same h
  after_reclaim-Sound (false, _) r same h = ground arith

  after_is_completed-Sound :
      (x : Bool × Option GoError) (r : Run W)
      → r.task ≡ t
      → All (Genuine t) r.log
      → Sound t (after_is_completed F cfg P (attempt_key t.id t.attempt) x r)
  unfolding after_is_completed
  after_is_completed-Sound (true, _) r same h = ground arith
  after_is_completed-Sound (false, _) r same h =
      let k = attempt_key t.id t.attempt in
      call-Sound t (stale_reclaimed k)
        (P.try_reclaim_stale k cfg.consumer_name cfg.claim_idle_threshold) (after_reclaim F cfg P k)
        r (λ a. refl) (λ x w. after_reclaim-Sound x _ same (refl, h)) h

  after_set_processing-Sound :
      (x : Bool × Option GoError) (r : Run W)
      → r.task ≡ t
      → All (Genuine t) r.log
      → Sound t (after_set_processing F cfg P (attempt_key t.id t.attempt) x r)
  unfolding after_set_processing
  after_set_processing-Sound (true, _) r same h = deliver-Sound r same h
  after_set_processing-Sound (false, _) r same h =
      let k = attempt_key t.id t.attempt in
      call-Sound t (completion_read k) (P.is_completed k) (after_is_completed F cfg P k) r
        (λ a. refl) (λ x w. after_is_completed-Sound x _ same (refl, h)) h

  recover-Sound : (x : Reply (Unit {0}) × Run W) → Sound t x → Sound t (recover F cfg P x)
  unfolding recover
  recover-Sound (returns _, r) h = h
  recover-Sound (panics v, r) h = ground arith

  release-Sound : (x : Reply (Unit {0}) × Run W) → Sound t x → Sound t (release F cfg P x)
  unfolding release
  release-Sound (a, r) h = (tt, h)

module _ (F : Float64) {W : Type 0} (cfg : WorkerConfig) (P : Ports F.Carrier W) where
  process_body-Sound : (r : Run W) → r.log ≡ [] → Sound r.task (process_body F cfg P r)
  unfolding process_body
  process_body-Sound r fresh =
      let k = attempt_key r.task.id r.task.attempt in
      let so_far : All (Genuine r.task) r.log = rw fresh tt in
      call-Sound r.task (lock_taken k) (P.set_processing k cfg.consumer_name)
        (after_set_processing F cfg P k) r (λ a. refl)
        (λ x w. after_set_processing-Sound F cfg P r.task x _ refl (refl, so_far)) so_far

  -- The calls of a run of processTask, from an empty log on, fit the task that it was handed: each
  -- idempotency key is that of the task's attempt; the task that is sent is the one handed over; a
  -- dead-lettered entry holds that task with its error, and "max attempts exceeded" only where it
  -- was not retryable; a scheduled retry is of a retryable task, with the attempt raised by one and a
  -- delay of at most 15 minutes.
  pub process_task-Genuine :
      (r : Run W) → r.log ≡ [] → All (Genuine r.task) (process_task F cfg P r).1.log
  unfolding process_task
  process_task-Genuine r fresh =
      let begun = record r { active = r.active + 1 } in
      release-Sound F cfg P r.task (recover F cfg P (process_body F cfg P begun))
        (recover-Sound F cfg P r.task (process_body F cfg P begun) (process_body-Sound begun fresh))
