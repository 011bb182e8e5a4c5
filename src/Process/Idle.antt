-- ===== src/Process/Idle.antt =====
-- What the drain of cmd/server/main.go leaves of the workers of internal/worker/supervisor.go.
use mathlib.Core.Path.{subst}
use qtip_challenge.Base.{ℕ, ◌+◌, true, some, ◌≡◌, ◌⊎◌, inr, refl, sym, ◌∙◌, ap, arith}
use qtip_challenge.Worker.Pool.{Pool, WorkerStep, begin, give_back, leave, is_drained}
use qtip_challenge.Worker.Pool.Bounds.{IsBounded}
use qtip_challenge.Worker.Loop.{
  draining, returned, Loop, new_loop, LoopStep, receive, claim, claim_failed, admit, turn_away,
  resume, stop, drained, timed_out, cancel, close, worker, Runs,
}
use qtip_challenge.Worker.Loop.Accounts.{Runs-IsAccounted}
use qtip_challenge.Process.{
  Process, new_process, fail, signalled, clear_ready, stop_http, stop_metrics, drain, drain_timeout,
  close_redis, flush_traces, Step, coordinate, signal, http_starts, http_closed, http_fails,
  metrics_starts, metrics_closed, metrics_fails, consume_fails, consumes, supervise,
  supervisor_returns, scheduler_returns, monitor_returns, Reach, here, next,
}

-- The loop has left dispatch for good, and no goroutine is left.
pub record IsQuiet (l : Loop) : Type 0 where
  pub left : (l.place ≡ draining) ⊎ (l.place ≡ returned)
  pub spawned : l.pool.spawned ≡ 0
  pub running : l.pool.running ≡ 0
  pub leaving : l.pool.leaving ≡ 0

WorkerStep-IsQuiet :
    {p q : Pool} → WorkerStep p q → p.spawned ≡ 0 → p.running ≡ 0 → p.leaving ≡ 0 → ⊥
WorkerStep-IsQuiet (begin p n e) a b c = cc
WorkerStep-IsQuiet (give_back p n k e f) a b c = cc
WorkerStep-IsQuiet (leave p n k e f) a b c = cc

LoopStep-IsQuiet : {l m : Loop} → LoopStep l m → IsQuiet l → IsQuiet m
LoopStep-IsQuiet (receive l t e) q = absurd (ground (arith, q, e))
LoopStep-IsQuiet (claim l ts e) q = absurd (ground (arith, q, e))
LoopStep-IsQuiet (claim_failed l x e) q = q
LoopStep-IsQuiet (admit l t ts e f g) q = absurd (ground (arith, q, e))
LoopStep-IsQuiet (turn_away l t ts e f g) q = absurd (ground (arith, q, e))
LoopStep-IsQuiet (resume l e f) q = absurd (ground (arith, q, e))
LoopStep-IsQuiet (stop l e f) q = absurd (ground (arith, q, e))
LoopStep-IsQuiet (drained l e f) q = record {
  left = inr refl;
  spawned = q.spawned;
  running = q.running;
  leaving = q.leaving;
}
LoopStep-IsQuiet (timed_out l e) q = record {
  left = inr refl;
  spawned = q.spawned;
  running = q.running;
  leaving = q.leaving;
}
LoopStep-IsQuiet (cancel l) q = record {
  left = q.left;
  spawned = q.spawned;
  running = q.running;
  leaving = q.leaving;
}
LoopStep-IsQuiet (close l) q = record {
  left = q.left;
  spawned = q.spawned;
  running = q.running;
  leaving = q.leaving;
}
LoopStep-IsQuiet (worker l s) q = absurd (WorkerStep-IsQuiet s q.spawned q.running q.leaving)

-- The supervisor's part of a run is a run of its loop.
Step-Runs : {o : Loop} {p q : Process} → Step p q → Runs o p.loop → Runs o q.loop
unfolding fail
Step-Runs (coordinate (signalled p e c)) r = r
Step-Runs (coordinate (clear_ready p e)) r = r
Step-Runs (coordinate (stop_http p e)) r = r
Step-Runs (coordinate (stop_metrics p e)) r = r
Step-Runs (coordinate (drain p e d)) r = r
Step-Runs (coordinate (drain_timeout p e)) r = r
Step-Runs (coordinate (close_redis p e)) r = r
Step-Runs (coordinate (flush_traces p e)) r = r
Step-Runs (signal p) r = r
Step-Runs (http_starts p e) r = r
Step-Runs (http_closed p e f) r = r
Step-Runs (http_fails p e f) r = r
Step-Runs (metrics_starts p e) r = r
Step-Runs (metrics_closed p e f) r = r
Step-Runs (metrics_fails p e f) r = r
Step-Runs (consume_fails p e f) r = r
Step-Runs (consumes p e) r = r
Step-Runs (supervise p e s h) r = Runs.next r s
Step-Runs (supervisor_returns p e f) r = r
Step-Runs (scheduler_returns p e f) r = r
Step-Runs (monitor_returns p e f) r = r

pub Reach-Runs : (n : ℕ) {p : Process} → Reach (new_process n) p → Runs (new_loop n) p.loop
unfolding new_process
Reach-Runs n here = Runs.here
Reach-Runs n (next r s) = Step-Runs s (Reach-Runs n r)

-- What Drain saw, and what is kept of it.
record IsDrained (p : Process) : Type 0 where
  seen :
      (l : Loop)
      → p.drained_at ≡ some l
      → (l.pool.running ≡ 0) × (l.pool.leaving ≡ 0) × (IsQuiet l → IsQuiet p.loop)

pub quiet_now :
    (l : Loop)
    → IsBounded l.pool
    → is_drained l.pool ≡ true
    → (l.pool.running ≡ 0) × (l.pool.leaving ≡ 0)
unfolding is_drained
quiet_now l b h = ground (arith, b, h)

same_loop : (l m : Loop) → some l ≡ some m → l ≡ m
same_loop l m e = ground (arith, e)

Step-IsDrained : {p q : Process} → Step p q → IsBounded p.loop.pool → IsDrained p → IsDrained q
unfolding fail
Step-IsDrained (coordinate (signalled p e c)) b d = record { seen = d.seen }
Step-IsDrained (coordinate (clear_ready p e)) b d = record { seen = d.seen }
Step-IsDrained (coordinate (stop_http p e)) b d = record { seen = d.seen }
Step-IsDrained (coordinate (stop_metrics p e)) b d = record { seen = d.seen }
Step-IsDrained (coordinate (drain p e h)) b d = record {
  seen = λ l at.
      let same = same_loop p.loop l at in
      let (idle, out) = quiet_now p.loop b h in
      (
        ap (λ x. x.pool.running) (sym same) ∙ idle,
        ap (λ x. x.pool.leaving) (sym same) ∙ out,
        λ quiet. subst IsQuiet (sym same) quiet,
      );
}
Step-IsDrained (coordinate (drain_timeout p e)) b d = record { seen = d.seen }
Step-IsDrained (coordinate (close_redis p e)) b d = record { seen = d.seen }
Step-IsDrained (coordinate (flush_traces p e)) b d = record { seen = d.seen }
Step-IsDrained (signal p) b d = record { seen = d.seen }
Step-IsDrained (http_starts p e) b d = record { seen = d.seen }
Step-IsDrained (http_closed p e f) b d = record { seen = d.seen }
Step-IsDrained (http_fails p e f) b d = record { seen = d.seen }
Step-IsDrained (metrics_starts p e) b d = record { seen = d.seen }
Step-IsDrained (metrics_closed p e f) b d = record { seen = d.seen }
Step-IsDrained (metrics_fails p e f) b d = record { seen = d.seen }
Step-IsDrained (consume_fails p e f) b d = record { seen = d.seen }
Step-IsDrained (consumes p e) b d = record { seen = d.seen }
Step-IsDrained (supervise p e s h) b d = record {
  seen = λ l at.
      let (idle, out, kept) = d.seen l at in (idle, out, λ quiet. LoopStep-IsQuiet s (kept quiet));
}
Step-IsDrained (supervisor_returns p e f) b d = record { seen = d.seen }
Step-IsDrained (scheduler_returns p e f) b d = record { seen = d.seen }
Step-IsDrained (monitor_returns p e f) b d = record { seen = d.seen }

Reach-IsDrained : (n : ℕ) {p : Process} → Reach (new_process n) p → IsDrained p
unfolding new_process
Reach-IsDrained n here = record { seen = λ l at. absurd (ground (arith, at)) }
Reach-IsDrained n (next r s) =
    Step-IsDrained s (Runs-IsAccounted (Reach-Runs n r)).bounded (Reach-IsDrained n r)

-- Where Drain ended without a timeout at a moment when the supervisor's loop had left dispatch and
-- every goroutine that it launched had begun, no goroutine and no token of the semaphore is left in
-- any later state, such as the one in which Redis is closed.
pub drained_stays_idle :
    (n : ℕ) (p : Process) (l : Loop)
    → Reach (new_process n) p
    → p.drained_at ≡ some l
    → (l.place ≡ draining) ⊎ (l.place ≡ returned)
    → l.pool.spawned ≡ 0
    → (p.loop.pool.spawned + p.loop.pool.running + p.loop.pool.leaving ≡ 0)
      × (p.loop.pool.tokens ≡ 0)
drained_stays_idle n p l r at left begun =
    let (idle, out, kept) = (Reach-IsDrained n r).seen l at in
    let quiet = kept (record { left = left; spawned = begun; running = idle; leaving = out }) in
    let bounded = (Runs-IsAccounted (Reach-Runs n r)).bounded in
    ground (arith, quiet.spawned, quiet.running, quiet.leaving, bounded.held)
