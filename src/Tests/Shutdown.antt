-- ===== src/Tests/Shutdown.antt =====
-- Runs of the process to its shutdown, with a task in dispatch and without.
use qtip_challenge.Base.{
  ◌+◌, ◌≤◌, true, false, some, [], ◌∷◌, ◌++◌, ◌≡◌, ◌≢◌, inl, inr, refl, arith,
}
use qtip_challenge.Worker.Pool.{new_pool, is_drained}
use qtip_challenge.Worker.Loop.{dispatching, draining, Loop, new_loop, receive, stop, cancel}
use qtip_challenge.Process.{
  starting, running, clearing_ready, stopping_http, draining_workers, closing_redis,
  flushing_traces, Process, new_process, signalled, clear_ready, stop_http, stop_metrics, drain,
  drain_timeout, close_redis, coordinate, signal, consumes, supervise, Reach, here, next,
}
use qtip_challenge.Process.Shutdown.{done, redis_closed_last, stays_unready}
use qtip_challenge.Process.Idle.{drained_stays_idle}
use qtip_challenge.Process.Race.{drain_misses_task}
use qtip_challenge.Tests.Sample.{welcome}

running_started : running ≢ starting
running_started e = cc

-- The loop has taken a task when the signal comes.
abbrev taking : Loop
taking = record (new_loop 1) { place = dispatching; pending = welcome ∷ []; taken = welcome ∷ [] }

abbrev consuming : Process
consuming = record (new_process 1) { supervisor = running }

abbrev at_drain : Process
at_drain = record consuming {
  loop = taking;
  cancelled = true;
  http_shut = true;
  metrics_shut = true;
  stage = draining_workers;
}

at_drain-Reach : Reach (new_process 1) at_drain
unfolding new_process new_loop new_pool
at_drain-Reach =
    let p : Process = record consuming { loop = taking } in
    let up = next here (consumes (new_process 1) refl) in
    let took =
      next up (supervise consuming (inl refl) (receive (new_loop 1) welcome refl) (λ h. h)) in
    let p1 : Process = record p { cancelled = true } in
    let r1 = next (next took (signal p)) (coordinate (signalled p1 refl refl)) in
    let r2 = next r1 (coordinate (clear_ready (record p1 { stage = clearing_ready }) refl)) in
    let p3 : Process = record p1 { stage = stopping_http } in
    let r3 = next r2 (coordinate (stop_http p3 refl)) in next r3 (coordinate (stop_metrics _ refl))

drain_misses_task_example :
    (q : Process) × Reach (new_process 1) q
    × (q.drained_at ≡ some taking)
    × (q.redis_open ≡ false)
    × (q.loop.handled ≡ taking.handled ++ (welcome, true) ∷ [])
    × (q.loop.pool.spawned ≡ 0)
    × (q.loop.pool.running ≡ taking.pool.spawned + 1)
unfolding new_process new_loop new_pool is_drained
drain_misses_task_example =
    drain_misses_task 1 at_drain welcome [] at_drain-Reach refl refl refl refl refl (omega arith)

abbrev closed : Process
closed = record at_drain { redis_open = false; stage = flushing_traces }

closed-Reach : Reach (new_process 1) closed
unfolding new_process
closed-Reach =
    next (next at_drain-Reach (coordinate (drain_timeout at_drain refl)))
      (coordinate (close_redis _ refl))

redis_closed_last_example :
    (closed.redis_open ≡ false
      → (closed.cancelled ≡ true)
        × (closed.http_shut ≡ true)
        × (closed.metrics_shut ≡ true)
        × (6 ≤ done closed.stage))
    × (closed.cancelled ≡ false
        → (closed.redis_open ≡ true) × (closed.http_shut ≡ false) × (closed.metrics_shut ≡ false))
redis_closed_last_example = redis_closed_last 1 closed closed-Reach

abbrev serving : Process
serving = record (new_process 1) {
  http = running;
  ready = true;
  cancelled = true;
  stage = clearing_ready;
}

stays_unready_example :
    let cleared : Process = record serving { ready = false; stage = stopping_http } in
    cleared.ready ≡ false
unfolding new_process
stays_unready_example =
    stays_unready serving (record serving { ready = false; stage = stopping_http }) refl
      running_started (next here (coordinate (clear_ready serving refl))) (omega arith)

-- The loop has stopped before the drain.
abbrev stopped : Loop
stopped = record (new_loop 1) { place = draining; cancelled = true }

abbrev drained_idle : Process
drained_idle = record consuming {
  loop = stopped;
  cancelled = true;
  http_shut = true;
  metrics_shut = true;
  stage = closing_redis;
  drained_at = some stopped;
}

drained_idle-Reach : Reach (new_process 1) drained_idle
unfolding new_process new_loop new_pool is_drained
drained_idle-Reach =
    let p : Process = record consuming { cancelled = true } in
    let up = next (next here (consumes (new_process 1) refl)) (signal consuming) in
    let told = next up (supervise p (inl refl) (cancel (new_loop 1)) (λ h. refl)) in
    let l : Loop = record (new_loop 1) { cancelled = true } in
    let p1 : Process = record p { loop = l } in
    let left = next told (supervise p1 (inl refl) (stop l refl (inr refl)) (λ h. refl)) in
    let p2 : Process = record p { loop = stopped } in
    let r1 = next left (coordinate (signalled p2 refl refl)) in
    let r2 = next r1 (coordinate (clear_ready (record p2 { stage = clearing_ready }) refl)) in
    let r3 = next r2 (coordinate (stop_http (record p2 { stage = stopping_http }) refl)) in
    let r4 = next r3 (coordinate (stop_metrics _ refl)) in next r4 (coordinate (drain _ refl refl))

drained_stays_idle_example :
    (stopped.pool.spawned + stopped.pool.running + stopped.pool.leaving ≡ 0)
    × (stopped.pool.tokens ≡ 0)
unfolding new_loop new_pool
drained_stays_idle_example =
    drained_stays_idle 1 drained_idle stopped drained_idle-Reach refl (inl refl) refl
