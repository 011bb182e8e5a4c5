-- ===== src/Process/Shutdown.antt =====
-- The order of the shutdown in cmd/server/main.go.
use qtip_challenge.Base.{ℕ, ◌≤◌, true, false, not, leb, ◌≡◌, ◌≢◌, arith}
use qtip_challenge.Process.{
  starting, running, ended, Stage, awaiting_signal, clearing_ready, stopping_http, stopping_metrics,
  draining_workers, closing_redis, flushing_traces, complete, Process, new_process, fail,
  Coordinate, signalled, clear_ready, stop_http, stop_metrics, drain, drain_timeout, close_redis,
  flush_traces, Step, coordinate, signal, http_starts, http_closed, http_fails, metrics_starts,
  metrics_closed, metrics_fails, consume_fails, consumes, supervise, supervisor_returns,
  scheduler_returns, monitor_returns, Reach, here, next,
}

-- How many statements of the coordinator are done.
abbrev pub done : Stage → ℕ
done awaiting_signal = 0
done clearing_ready = 1
done stopping_http = 2
done stopping_metrics = 3
done draining_workers = 4
done closing_redis = 5
done flushing_traces = 6
done complete = 7

pub record IsOrdered (p : Process) : Type 0 where
  pub begun : 1 ≤ done p.stage → p.cancelled ≡ true
  pub http : p.http_shut ≡ leb 3 (done p.stage)
  pub metrics : p.metrics_shut ≡ leb 4 (done p.stage)
  pub redis : p.redis_open ≡ not (leb 6 (done p.stage))

Coordinate-IsOrdered : {p q : Process} → Coordinate p q → IsOrdered p → IsOrdered q
Coordinate-IsOrdered (signalled p e c) o = ground (arith, o, e, c)
Coordinate-IsOrdered (clear_ready p e) o = ground (arith, o, e)
Coordinate-IsOrdered (stop_http p e) o = ground (arith, o, e)
Coordinate-IsOrdered (stop_metrics p e) o = ground (arith, o, e)
Coordinate-IsOrdered (drain p e d) o = ground (arith, o, e)
Coordinate-IsOrdered (drain_timeout p e) o = ground (arith, o, e)
Coordinate-IsOrdered (close_redis p e) o = ground (arith, o, e)
Coordinate-IsOrdered (flush_traces p e) o = ground (arith, o, e)

Step-IsOrdered : {p q : Process} → Step p q → IsOrdered p → IsOrdered q
unfolding fail
Step-IsOrdered (coordinate s) o = Coordinate-IsOrdered s o
Step-IsOrdered (signal p) o = ground (arith, o)
Step-IsOrdered (http_starts p e) o = ground (arith, o)
Step-IsOrdered (http_closed p e f) o = ground (arith, o)
Step-IsOrdered (http_fails p e f) o = ground (arith, o)
Step-IsOrdered (metrics_starts p e) o = ground (arith, o)
Step-IsOrdered (metrics_closed p e f) o = ground (arith, o)
Step-IsOrdered (metrics_fails p e f) o = ground (arith, o)
Step-IsOrdered (consume_fails p e f) o = ground (arith, o)
Step-IsOrdered (consumes p e) o = ground (arith, o)
Step-IsOrdered (supervise p e s h) o = ground (arith, o)
Step-IsOrdered (supervisor_returns p e f) o = ground (arith, o)
Step-IsOrdered (scheduler_returns p e f) o = ground (arith, o)
Step-IsOrdered (monitor_returns p e f) o = ground (arith, o)

pub Reach-IsOrdered : (n : ℕ) {p : Process} → Reach (new_process n) p → IsOrdered p
unfolding new_process
Reach-IsOrdered n here = ground arith
Reach-IsOrdered n (next r s) = Step-IsOrdered s (Reach-IsOrdered n r)

-- In every run of the process, Redis is closed only after the context was cancelled, both HTTP
-- servers were shut down, and Drain returned; before the context is cancelled nothing of this has
-- happened.
pub redis_closed_last :
    (n : ℕ) (p : Process)
    → Reach (new_process n) p
    → (p.redis_open ≡ false
        → (p.cancelled ≡ true)
          × (p.http_shut ≡ true)
          × (p.metrics_shut ≡ true)
          × (6 ≤ done p.stage))
      × (p.cancelled ≡ false
          → (p.redis_open ≡ true) × (p.http_shut ≡ false) × (p.metrics_shut ≡ false))
redis_closed_last n p r = ground (arith, Reach-IsOrdered n r)

-- The readiness once the coordinator is to clear it, or has.
record IsClearing (p : Process) : Type 0 where
  started : p.http ≢ starting
  begun : 1 ≤ done p.stage
  cleared : 2 ≤ done p.stage → p.ready ≡ false

Coordinate-IsClearing : {p q : Process} → Coordinate p q → IsClearing p → IsClearing q
Coordinate-IsClearing (signalled p e c) o = ground (arith, o, e, c)
Coordinate-IsClearing (clear_ready p e) o = ground (arith, o, e)
Coordinate-IsClearing (stop_http p e) o = ground (arith, o, e)
Coordinate-IsClearing (stop_metrics p e) o = ground (arith, o, e)
Coordinate-IsClearing (drain p e d) o = ground (arith, o, e)
Coordinate-IsClearing (drain_timeout p e) o = ground (arith, o, e)
Coordinate-IsClearing (close_redis p e) o = ground (arith, o, e)
Coordinate-IsClearing (flush_traces p e) o = ground (arith, o, e)

ended_started : ended ≢ starting
ended_started e = cc

running_started : running ≢ starting
running_started e = cc

Step-IsClearing : {p q : Process} → Step p q → IsClearing p → IsClearing q
unfolding fail
Step-IsClearing (coordinate s) o = Coordinate-IsClearing s o
Step-IsClearing (signal p) o = ground (arith, o)
Step-IsClearing (http_starts p e) o = absurd (o.started e)
Step-IsClearing (http_closed p e f) o = record {
  started = ended_started;
  begun = o.begun;
  cleared = o.cleared;
}
Step-IsClearing (http_fails p e f) o = record {
  started = ended_started;
  begun = o.begun;
  cleared = o.cleared;
}
Step-IsClearing (metrics_starts p e) o = ground (arith, o)
Step-IsClearing (metrics_closed p e f) o = ground (arith, o)
Step-IsClearing (metrics_fails p e f) o = ground (arith, o)
Step-IsClearing (consume_fails p e f) o = ground (arith, o)
Step-IsClearing (consumes p e) o = ground (arith, o)
Step-IsClearing (supervise p e s h) o = ground (arith, o)
Step-IsClearing (supervisor_returns p e f) o = ground (arith, o)
Step-IsClearing (scheduler_returns p e f) o = ground (arith, o)
Step-IsClearing (monitor_returns p e f) o = ground (arith, o)

Reach-IsClearing : {p q : Process} → Reach p q → IsClearing p → IsClearing q
Reach-IsClearing here o = o
Reach-IsClearing (next r s) o = Step-IsClearing s (Reach-IsClearing r o)

-- Where the HTTP server has started before the coordinator clears the readiness, the server is not
-- ready in any later state in which the coordinator has done so.
pub stays_unready :
    (p q : Process)
    → p.stage ≡ clearing_ready
    → p.http ≢ starting
    → Reach p q
    → 2 ≤ done q.stage
    → q.ready ≡ false
stays_unready p q e started r late =
    (Reach-IsClearing r (record {
      started = started;
      begun = ground (arith, e);
      cleared = λ h. ground (arith, e, h);
    })).cleared
      late
