-- ===== src/Wiring/Once.antt =====
-- Deliveries of one attempt through the gate of internal/worker/supervisor.go with the Redis store of
-- internal/adapters/redis/idempotency.go behind it.
use qtip_challenge.Base.{ℕ, zero, suc, ◌+◌, ◌≤◌, ◌<◌, String, [], ◌≡◌, refl, arith}
use qtip_challenge.Base.Int.{ℤ, ◌-ℤ◌, ◌<ℤ◌, div_trunc}
use qtip_challenge.Domain.Task.{EmailTask}
use qtip_challenge.Domain.Retry.{Float64, second}
use qtip_challenge.Config.Types.{Config}
use qtip_challenge.Worker.Ports.{Run}
use qtip_challenge.Worker.Protocol.Safety.{count, is_sent, is_acked}
use qtip_challenge.Worker.Supervisor.{attempt_key, process_task}
use qtip_challenge.Worker.Supervisor.Gate.{process_task_blocked}
use qtip_challenge.Worker.Supervisor.Gate.Marked.{is_marked, process_task_marked}
use qtip_challenge.Redis.Idempotency.{unix}
use qtip_challenge.Redis.Idempotency.Lock.{Holds, lock_of}
use qtip_challenge.Redis.Idempotency.Completion.{Completed}
use qtip_challenge.Wiring.{Outside, wired}
use qtip_challenge.Wiring.Sound.{
  IsSound, Completed-Blocks, Locked, young-Blocks, Taken, wired-Guards,
}

module _ (F : Float64) {S : Type 0} (cfg : Config F) (D : Outside F.Carrier S) where
  -- Where the store behaves as documented and the key of an attempt holds a record of a completed
  -- one, a run of processTask for that attempt, from an empty log on, sends nothing, acknowledges
  -- the message at most once, and leaves the attempt completed.
  Completed-is_not_resent :
      IsSound F cfg D
      → (r : Run S) → r.log ≡ []
      → Completed D.keys D.formats (attempt_key r.task.id r.task.attempt) r.world
      → let r' = (process_task F cfg.worker (wired F cfg D) r).1 in
        (count is_sent r'.log ≡ 0)
        × (count is_acked r'.log ≤ 1)
        × Completed D.keys D.formats (attempt_key r.task.id r.task.attempt) r'.world
  Completed-is_not_resent L r fresh done =
      let k = attempt_key r.task.id r.task.attempt in
      process_task_blocked F cfg.worker (wired F cfg D) k (Completed D.keys D.formats k) 1
        (Completed-Blocks F cfg D L k) r fresh refl done

  -- While a worker holds the lock of the attempt, for less than the claim threshold whenever
  -- the clock is read, a run of processTask for that attempt, from an empty log on, neither sends
  -- nor acknowledges, and that worker still holds the lock. The store behaves as documented.
  pub locked_is_left_alone :
      IsSound F cfg D
      → (holder : String) (since : ℤ) (r : Run S)
      → ((w : S)
          → unix (D.clock w).0 -ℤ unix since <ℤ div_trunc cfg.worker.claim_idle_threshold second)
      → r.log ≡ []
      → let k = attempt_key r.task.id r.task.attempt in
        Holds D.keys D.formats k (lock_of D.keys D.formats holder since) r.world
        → let r' = (process_task F cfg.worker (wired F cfg D) r).1 in
          (count is_sent r'.log ≡ 0)
          × (count is_acked r'.log ≡ 0)
          × Holds D.keys D.formats k (lock_of D.keys D.formats holder since) r'.world
  locked_is_left_alone L holder since r young fresh held =
      let k = attempt_key r.task.id r.task.attempt in
      let quiet =
        process_task_blocked F cfg.worker (wired F cfg D) k (Locked F cfg D L k holder since young)
          0 (young-Blocks F cfg D L k holder since young) r fresh refl held in
      (quiet.0, omega (arith, quiet.1), quiet.2)

  -- Deliveries of a task one after the other, each a run of processTask from an empty log on: the
  -- sum of the sends.
  unfoldable pub redeliveries : ℕ → EmailTask → Run S → ℕ
  redeliveries zero t r = 0
  redeliveries (suc n) t r =
      let r' = (process_task F cfg.worker (wired F cfg D) (record r { task = t; log = [] })).1 in
      count is_sent r'.log + redeliveries n t r'

  redeliveries_quiet :
      IsSound F cfg D
      → (n : ℕ) (t : EmailTask) (r : Run S)
      → Completed D.keys D.formats (attempt_key t.id t.attempt) r.world
      → redeliveries n t r ≡ 0
  unfolding redeliveries
  redeliveries_quiet L zero t r done = refl
  redeliveries_quiet L (suc n) t r done =
      let r' = (process_task F cfg.worker (wired F cfg D) (record r { task = t; log = [] })).1 in
      let quiet = Completed-is_not_resent L (record r { task = t; log = [] }) refl done in
      omega (arith, quiet.0, redeliveries_quiet L n t r' quiet.2)

  -- Once a run of processTask, from an empty log on, has sent a task and marked the attempt as
  -- completed without error, however often the message of that attempt is delivered again, the task
  -- is not sent again. The store behaves as documented, and no one else writes to it.
  pub marked_is_not_resent :
      IsSound F cfg D
      → (r : Run S) (n : ℕ) → r.log ≡ []
      → let r' = (process_task F cfg.worker (wired F cfg D) r).1 in
        0 < count is_marked r'.log → redeliveries n r.task r' ≡ 0
  marked_is_not_resent L r n fresh marked =
      let k = attempt_key r.task.id r.task.attempt in
      redeliveries_quiet L n r.task _ (
        process_task_marked F cfg.worker (wired F cfg D) k (Taken F cfg D L k)
          (Completed D.keys D.formats k) (wired-Guards F cfg D L k) r fresh refl marked)
