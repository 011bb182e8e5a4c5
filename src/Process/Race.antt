-- ===== src/Process/Race.antt =====
-- A task that the supervisor dispatches while the coordinator of cmd/server/main.go drains.
use qtip_challenge.Base.{
  ℕ, zero, suc, ◌+◌, ◌<◌, true, false, some, List, [], ◌∷◌, ◌++◌, ◌≡◌, inl, refl, arith,
}
use qtip_challenge.Domain.Task.{EmailTask}
use qtip_challenge.Worker.Pool.{begin, launch, is_drained}
use qtip_challenge.Worker.Loop.{dispatching, admit, worker}
use qtip_challenge.Worker.Loop.Accounts.{Runs-IsAccounted}
use qtip_challenge.Process.{
  running, draining_workers, Process, new_process, drain, close_redis, coordinate, supervise, Reach,
  next,
}
use qtip_challenge.Process.Shutdown.{Reach-IsOrdered}
use qtip_challenge.Process.Idle.{Reach-Runs, quiet_now}

-- All launched goroutines begin, and nothing else happens.
record IsBegun (p q : Process) : Type 0 where
  stage : q.stage ≡ p.stage
  drained_at : q.drained_at ≡ p.drained_at
  handled : q.loop.handled ≡ p.loop.handled
  spawned : q.loop.pool.spawned ≡ 0
  now_running : q.loop.pool.running ≡ p.loop.pool.running + p.loop.pool.spawned

all_begin :
    (k : ℕ) {o : Process} (p : Process)
    → Reach o p
    → p.supervisor ≡ running
    → p.cancelled ≡ true
    → p.loop.pool.spawned ≡ k
    → (q : Process) × Reach o q × IsBegun p q
all_begin zero p r up cancelled e = (
  p,
  r,
  record {
    stage = refl;
    drained_at = refl;
    handled = refl;
    spawned = e;
    now_running = omega (arith, e);
  },
)
all_begin (suc k) p r up cancelled e =
    let step = supervise p (inl up) (worker p.loop (begin p.loop.pool k e)) (λ _. cancelled) in
    let (q, r', b) = all_begin k _ (next r step) up cancelled refl in
    (
      q,
      r',
      record {
        stage = b.stage;
        drained_at = b.drained_at;
        handled = b.handled;
        spawned = b.spawned;
        now_running = omega (arith, b.now_running, e);
      },
    )

-- From a state in which Drain is about to see no active worker while the loop is in dispatch with a
-- task and room for it, a run goes on in which Drain ends without a timeout, the task is given to a
-- goroutine only then, Redis is closed, and all goroutines that were launched, that of the task among
-- them, are in processing.
pub drain_misses_task :
    (n : ℕ) (p : Process) (t : EmailTask) (ts : List EmailTask)
    → Reach (new_process n) p
    → p.stage ≡ draining_workers
    → is_drained p.loop.pool ≡ true
    → p.supervisor ≡ running
    → p.loop.place ≡ dispatching
    → p.loop.pending ≡ t ∷ ts
    → p.loop.pool.tokens < p.loop.pool.pool_size
    → (q : Process) × Reach (new_process n) q
      × (q.drained_at ≡ some p.loop)
      × (q.redis_open ≡ false)
      × (q.loop.handled ≡ p.loop.handled ++ (t, true) ∷ [])
      × (q.loop.pool.spawned ≡ 0)
      × (q.loop.pool.running ≡ p.loop.pool.spawned + 1)
unfolding launch
drain_misses_task n p t ts r e idle up at waiting room =
    let o = Reach-IsOrdered n r in
    let cancelled : p.cancelled ≡ true = ground (arith, o, e) in
    let bounded = (Runs-IsAccounted (Reach-Runs n r)).bounded in
    let quiet = quiet_now p.loop bounded idle in
    let r1 = next r (coordinate (drain p e idle)) in
    let r2 = next r1 (supervise _ (inl up) (admit p.loop t ts at waiting room) (λ _. cancelled)) in
    let (q, r3, b) = all_begin (p.loop.pool.spawned + 1) _ r2 up cancelled refl in
    (
      _,
      next r3 (coordinate (close_redis q b.stage)),
      b.drained_at,
      refl,
      b.handled,
      b.spawned,
      omega (arith, b.now_running, quiet.0),
    )
