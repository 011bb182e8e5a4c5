-- ===== src/Worker/Supervisor/Slots.antt =====
-- The semaphore and the active count over a run of processTask, internal/worker/supervisor.go.
use qtip_challenge.Base.{
  ◌+◌, ◌-◌, String, Bool, true, false, Option, none, some, ◌∷◌, ◌≡◌, refl, arith,
}
use mathlib.Core.List.{head?}
use qtip_challenge.Domain.Errors.{GoError, error_text}
use qtip_challenge.Domain.TaskStatus
use qtip_challenge.Domain.Retry.{Float64}
use qtip_challenge.Config.Types.{WorkerConfig}
use qtip_challenge.Worker.Ports.{
  Reply, returns, panics, Event, Ports, Run, M, call, ◌>>=◌, lock_taken, completion_read,
  stale_reclaimed, sent, stats_recorded,
}
use qtip_challenge.Worker.Supervisor.{
  is_permanent, attempt_key, clear_lock_and_nack, delivered, after_dlq, dead_letter, after_schedule,
  retry, failed, after_send, deliver, after_reclaim, after_is_completed, after_set_processing,
  process_body, recover, release, process_task,
}

-- The step left the tokens and the active count as `r` has them.
abbrev Keeps : {W : Type 0} → Run W → Reply (Unit {0}) × Run W → Type 0
Keeps r x = (x.1.tokens ≡ r.tokens) × (x.1.active ≡ r.active)

call-Keeps :
    {W A : Type 0} (s : Run W) (entry : Reply A → Event) (f : W → Reply A × W)
    (k : A → M W (Unit {0})) (r : Run W)
    → ((x : A) (w : W) → Keeps s (k x (record r { world = w; log = entry (returns x) ∷ r.log })))
    → Keeps s (returns tt, r)
    → Keeps s ((call entry f >>= k) r)
call-Keeps {W} {A} s entry f k r on_return kept = split (f r.world)
  where
    split : (p : Reply A × W) → Keeps s ((call entry (λ (w : W). p) >>= k) r)
    split (returns x, w) = on_return x w
    split (panics v, w) = kept

module _ (F : Float64) {W : Type 0} (cfg : WorkerConfig) (P : Ports F.Carrier W) (k : String) where
  delivered-Keeps : (r : Run W) → Keeps r (delivered F cfg P k r)
  unfolding delivered
  delivered-Keeps r = ground arith

  dead_letter-Keeps : (e : GoError) (b : Bool) (r : Run W) → Keeps r (dead_letter F cfg P k e b r)
  unfolding dead_letter after_dlq clear_lock_and_nack
  dead_letter-Keeps e b r = ground arith

  retry-Keeps : (r : Run W) → Keeps r (retry F cfg P k r)
  unfolding retry after_schedule clear_lock_and_nack
  retry-Keeps r = ground arith

  failed-Keeps : (e : GoError) (r : Run W) → Keeps r (failed F cfg P k e r)
  unfolding failed
  failed-Keeps e r =
      let u = record (r.task) { last_error = error_text e; status = TaskStatus.failed } in
      let r' = record r { total_failed = r.total_failed + 1; task = u } in
      ground (arith, dead_letter-Keeps e (is_permanent e) r', retry-Keeps r')

  after_send-Keeps : (x : Option GoError) (r : Run W) → Keeps r (after_send F cfg P k x r)
  unfolding after_send
  after_send-Keeps none r = delivered-Keeps r
  after_send-Keeps (some e) r = failed-Keeps e r

  deliver-Keeps : (r : Run W) → Keeps r (deliver F cfg P k r)
  unfolding deliver
  deliver-Keeps r =
      call-Keeps r (sent r.task) (P.send r.task) (after_send F cfg P k) r
        (λ x w. after_send-Keeps x _) (refl, refl)

  after_reclaim-Keeps :
      (x : Bool × Option GoError) (r : Run W) → Keeps r (after_reclaim F cfg P k x r)
  unfolding after_reclaim
  after_reclaim-Keeps (true, _) r = deliver-Keeps r
  after_reclaim-Keeps (false, _) r = ground arith

  after_is_completed-Keeps :
      (x : Bool × Option GoError) (r : Run W) → Keeps r (after_is_completed F cfg P k x r)
  unfolding after_is_completed
  after_is_completed-Keeps (true, _) r = ground arith
  after_is_completed-Keeps (false, _) r =
      call-Keeps r (stale_reclaimed k)
        (P.try_reclaim_stale k cfg.consumer_name cfg.claim_idle_threshold) (after_reclaim F cfg P k)
        r (λ x w. after_reclaim-Keeps x _) (refl, refl)

  after_set_processing-Keeps :
      (x : Bool × Option GoError) (r : Run W) → Keeps r (after_set_processing F cfg P k x r)
  unfolding after_set_processing
  after_set_processing-Keeps (true, _) r = deliver-Keeps r
  after_set_processing-Keeps (false, _) r =
      call-Keeps r (completion_read k) (P.is_completed k) (after_is_completed F cfg P k) r
        (λ x w. after_is_completed-Keeps x _) (refl, refl)

module _ (F : Float64) {W : Type 0} (cfg : WorkerConfig) (P : Ports F.Carrier W) where
  process_body-Keeps : (r : Run W) → Keeps r (process_body F cfg P r)
  unfolding process_body
  process_body-Keeps r =
      let k = attempt_key r.task.id r.task.attempt in
      call-Keeps r (lock_taken k) (P.set_processing k cfg.consumer_name)
        (after_set_processing F cfg P k) r (λ x w. after_set_processing-Keeps F cfg P k x _)
        (refl, refl)

  recover-Keeps :
      (s : Run W) (x : Reply (Unit {0}) × Run W) → Keeps s x → Keeps s (recover F cfg P x)
  unfolding recover
  recover-Keeps s (returns _, r) h = h
  recover-Keeps s (panics v, r) h = ground arith

  -- processTask ends, by return or by panic, with one token taken out of the semaphore, with the
  -- active count as it was before, and with that count reported as its last call.
  pub process_task_frees_slot :
      (r : Run W)
      → let r' = (process_task F cfg P r).1 in
        (r'.tokens ≡ r.tokens - 1)
        × (r'.active ≡ r.active)
        × (head? r'.log ≡ some (stats_recorded r.active))
  unfolding process_task release
  process_task_frees_slot r =
      let begun = record r { active = r.active + 1 } in
      let h = recover-Keeps begun (process_body F cfg P begun) (process_body-Keeps begun) in
      ground arith
