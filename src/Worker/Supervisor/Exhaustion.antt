-- ===== src/Worker/Supervisor/Exhaustion.antt =====
-- Repeated runs of processTask on a task whose sends always fail transiently.
use qtip_challenge.Base.{
  ℕ, zero, suc, ◌+◌, ◌<◌, String, true, false, Option, none, some, List, [], ◌∷◌, ◌≡◌, refl, arith,
  if◌then◌else◌, ltb, ap, ◌∙◌,
}
use qtip_challenge.Base.Int.{ℤ, pos, ◌+ℤ◌}
use qtip_challenge.Domain.Errors.{GoError, error_text}
use qtip_challenge.Domain.Task.{EmailTask, DlqEntry, is_retryable, is_poison_message}
use qtip_challenge.Domain.Retry.{Float64, next_retry_delay}
use qtip_challenge.Config.Types.{WorkerConfig}
use qtip_challenge.Worker.Ports.{
  Reply, returns, Event, Ports, Run, lock_taken, sent, retry_scheduled,
}
use qtip_challenge.Worker.Protocol.Safety.{count, is_sent}
use qtip_challenge.Worker.Supervisor.{
  is_permanent, attempt_key, after_dlq, dead_letter, after_schedule, retry, failed, after_send,
  deliver, after_set_processing, process_body, recover, release, process_task,
}
use qtip_challenge.Worker.Supervisor.Genuine.{failed_task}

-- The task that the latest successful ScheduleRetry of a log stored.
abbrev pub scheduled : List Event → Option EmailTask
scheduled [] = none
scheduled (retry_scheduled t d (returns none) ∷ log) = some t
scheduled (_ ∷ log) = scheduled log

is_retryable-failed :
    (t : EmailTask) (message : String) → is_retryable (failed_task t message) ≡ is_retryable t
unfolding is_retryable is_poison_message
is_retryable-failed t message = refl

is_poison-failed :
    (t : EmailTask) (message : String) (n : ℤ)
    → is_poison_message (record (failed_task t message) { attempt = n }) ≡ is_poison_message t
unfolding is_poison_message
is_poison-failed t message n = refl

is_retryable_at :
    (t : EmailTask) (a k : ℕ)
    → is_poison_message t ≡ false
    → t.attempt ≡ pos a
    → t.max_attempts ≡ pos (a + k)
    → is_retryable t ≡ ltb 0 k
unfolding is_retryable
is_retryable_at t a k clean at limit = rw (clean, at, limit) (ground arith)

suc_pos : (a : ℕ) → pos a +ℤ pos 1 ≡ pos (a + 1)
unfolding ◌+ℤ◌
suc_pos a = ground arith

module _ (F : Float64) {W : Type 0} (cfg : WorkerConfig) (P : Ports F.Carrier W) where
  -- Redis keeps working and the provider never does: each lock is granted, each send fails with `e`,
  -- and every other call succeeds.
  pub record AlwaysFails (e : GoError) : Type 0 where
    pub transient : is_permanent e ≡ false
    pub locks : (k n : String) (w : W) → (P.set_processing k n w).0 ≡ returns (true, none)
    pub fails : (t : EmailTask) (w : W) → (P.send t w).0 ≡ returns (some e)
    pub stores : (entry : DlqEntry) (w : W) → (P.send_to_dlq entry w).0 ≡ returns none
    pub schedules : (t : EmailTask) (d : ℤ) (w : W) → (P.schedule_retry t d w).0 ≡ returns none
    pub acks : (t : EmailTask) (w : W) → (P.acknowledge t w).0 ≡ returns none

  -- A task is processed, and where a retry of it was scheduled, that is processed in turn. The sum
  -- of the sends; a round is spent on each attempt.
  pub sends : ℕ → Run W → ℕ
  sends zero r = 0
  sends (suc rounds) r =
      let r' = (process_task F cfg P r).1 in
      count is_sent r'.log + elim (scheduled r'.log) [
        | none ↦ 0
        | some t ↦ sends rounds (record r' { task = t; log = [] })
      ]

  module _ (e : GoError) (H : AlwaysFails e) where
    -- Where a step of the error path ends: it returned, sent nothing, and stored this retry.
    abbrev EndsWith : Option EmailTask → Run W → Reply (Unit {0}) × Run W → Type 0
    EndsWith o r x =
        (x.0 ≡ returns tt) × (scheduled x.1.log ≡ o) × (count is_sent x.1.log ≡ count is_sent r.log)

    retry_run :
        (k : String) (r : Run W)
        → EndsWith
            (some (record (r.task) { attempt = r.task.attempt +ℤ pos 1 }))
            r
            (retry F cfg P k r)
    unfolding retry after_schedule
    retry_run k r =
        let u = record (r.task) { attempt = r.task.attempt +ℤ pos 1 } in
        let d = next_retry_delay F u (P.draw r.world).0 in
        let w = (P.draw r.world).1 in
        ground (arith, H.schedules u d w, H.acks u (P.schedule_retry u d w).1)

    dead_letter_run :
        (k : String) (r : Run W)
        → scheduled r.log ≡ none
        → EndsWith none r (dead_letter F cfg P k e false r)
    unfolding dead_letter after_dlq
    dead_letter_run k r h =
        let (at, w) = P.now r.world in
        let entry : DlqEntry = record {
          task = r.task;
          dead_at = at;
          failure_reason = "max attempts exceeded";
          final_error = error_text e;
          attempt_history = [];
        } in
        ground (arith, H.stores entry w, H.acks r.task (P.send_to_dlq entry w).1)

    -- The retry of a failed task, if there is one.
    abbrev follow_up : EmailTask → Option EmailTask
    follow_up t =
        if is_retryable t
        then some (record (failed_task t (error_text e)) { attempt = t.attempt +ℤ pos 1 })
        else none

    failed_run :
        (k : String) (r : Run W)
        → scheduled r.log ≡ none
        → EndsWith (follow_up r.task) r (failed F cfg P k e r)
    unfolding failed
    failed_run k r h =
        let r' = record r {
          total_failed = r.total_failed + 1;
          task = failed_task r.task (error_text e);
        } in
        ground (
          arith,
          H.transient,
          is_retryable-failed r.task (error_text e),
          retry_run k r',
          dead_letter_run k r',
        )

    process_task_run :
        (r : Run W)
        → r.log ≡ []
        → let r' = (process_task F cfg P r).1 in
          (scheduled r'.log ≡ follow_up r.task) × (count is_sent r'.log ≡ 1)
    unfolding process_task process_body after_set_processing deliver after_send recover release
    process_task_run r fresh =
        let k = attempt_key r.task.id r.task.attempt in
        let a = P.set_processing k cfg.consumer_name r.world in
        let b = P.send r.task a.1 in
        let ready = record r {
          world = b.1;
          active = r.active + 1;
          log = sent r.task b.0 ∷ lock_taken k a.0 ∷ r.log;
        } in
        ground (arith, H.locks k cfg.consumer_name r.world, H.fails r.task a.1, failed_run k ready)

    -- While each lock is granted, each send fails transiently and every other call succeeds, a task
    -- that is no poison message, stands at attempt `a` and has `max_attempts` equal to `a + k` is sent
    -- k + 1 times in any number of rounds above k, of which each processes one attempt from an empty
    -- log; so a fresh task, at attempt 0, is sent `max_attempts + 1` times and then no more.
    pub sends_until_dead :
        (rounds k a : ℕ) (r : Run W)
        → r.log ≡ []
        → is_poison_message r.task ≡ false
        → r.task.attempt ≡ pos a
        → r.task.max_attempts ≡ pos (a + k)
        → k < rounds
        → sends rounds r ≡ k + 1
    unfolding sends
    sends_until_dead zero k a r fresh clean at limit enough = absurd (omega arith)
    sends_until_dead (suc rounds) zero a r fresh clean at limit enough =
        let h = process_task_run r fresh in
        let out : is_retryable r.task ≡ false = is_retryable_at r.task a 0 clean at limit in
        ground arith
    sends_until_dead (suc rounds) (suc k) a r fresh clean at limit enough =
        let h = process_task_run r fresh in
        let more : is_retryable r.task ≡ true =
          is_retryable_at r.task a (suc k) clean at limit
          ∙ (let e : ltb 0 (suc k) ≡ true = ground arith in e) in
        let u = record (failed_task r.task (error_text e)) { attempt = r.task.attempt +ℤ pos 1 } in
        let r' = record ((process_task F cfg P r).1) { task = u; log = [] } in
        let rest =
          sends_until_dead rounds k (a + 1) r' refl (is_poison-failed r.task _ _ ∙ clean)
            (rw at (suc_pos a)) (limit ∙ ap pos (omega arith)) (omega arith) in
        ground (arith, h, more, rest)
