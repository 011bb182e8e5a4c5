-- ===== src/Process.antt =====
-- cmd/server/main.go, step 8: the goroutines of the errgroup and the shutdown coordinator, as a step
-- relation beside the event loop and the pool of the supervisor.
pub mod Idle
pub mod Race
pub mod Boot
pub mod Shutdown
use qtip_challenge.Base.{ℕ, Bool, true, false, Option, none, some, ◌≡◌, ◌⊎◌}
use qtip_challenge.Domain.Errors.{GoError}
use qtip_challenge.Worker.Loop.{Loop, new_loop, LoopStep}
use qtip_challenge.Worker.Loop
use qtip_challenge.Worker.Pool.{is_drained}

-- A goroutine before its blocking call, in it, and after its return.
pub data Phase : Type 0 where
  starting running ended : Phase

-- The statements of the coordinator, each named for what it does next.
pub data Stage : Type 0 where
  awaiting_signal : Stage
  clearing_ready : Stage
  stopping_http : Stage
  stopping_metrics : Stage
  draining_workers : Stage
  closing_redis : Stage
  flushing_traces : Stage
  complete : Stage

-- `first_error` is what g.Wait returns. `drained_at` is the history of Drain: the supervisor's state
-- when it returned without an error.
pub record Process : Type 0 where
  pub cancelled : Bool
  pub first_error : Option GoError
  pub ready : Bool
  pub http : Phase
  pub http_shut : Bool
  pub metrics : Phase
  pub metrics_shut : Bool
  pub supervisor : Phase
  pub loop : Loop
  pub scheduler : Phase
  pub monitor : Phase
  pub stage : Stage
  pub drained_at : Option Loop
  pub redis_open : Bool

-- Behind the g.Go calls; `pool_size` is cfg.Worker.PoolSize.
unfoldable pub new_process : ℕ → Process
new_process pool_size = record {
  cancelled = false;
  first_error = none;
  ready = false;
  http = starting;
  http_shut = false;
  metrics = starting;
  metrics_shut = false;
  supervisor = starting;
  loop = new_loop pool_size;
  scheduler = running;
  monitor = running;
  stage = awaiting_signal;
  drained_at = none;
  redis_open = true;
}

-- The first error that a goroutine returns is kept and cancels the context.
unfoldable pub fail : GoError → Process → Process
fail e p = record p {
  cancelled = true;
  first_error = elim p.first_error [ none ↦ some e | some e' ↦ some e' ];
}

-- What the coordinator does, statement by statement.
pub data Coordinate : Process → Process → Type 0 where
  signalled :
      (p : Process)
      → p.stage ≡ awaiting_signal
      → p.cancelled ≡ true
      → Coordinate p (record p { stage = clearing_ready })
  clear_ready :
      (p : Process)
      → p.stage ≡ clearing_ready
      → Coordinate p (record p { ready = false; stage = stopping_http })
  -- Shutdown, whether the requests end in time or not
  stop_http :
      (p : Process)
      → p.stage ≡ stopping_http
      → Coordinate p (record p { http_shut = true; stage = stopping_metrics })
  stop_metrics :
      (p : Process)
      → p.stage ≡ stopping_metrics
      → Coordinate p (record p { metrics_shut = true; stage = draining_workers })
  -- Drain sees no active worker, or its time is over
  drain :
      (p : Process)
      → p.stage ≡ draining_workers
      → is_drained p.loop.pool ≡ true
      → Coordinate p (record p { stage = closing_redis; drained_at = some p.loop })
  drain_timeout :
      (p : Process) → p.stage ≡ draining_workers → Coordinate p (record p { stage = closing_redis })
  close_redis :
      (p : Process)
      → p.stage ≡ closing_redis
      → Coordinate p (record p { redis_open = false; stage = flushing_traces })
  flush_traces :
      (p : Process) → p.stage ≡ flushing_traces → Coordinate p (record p { stage = complete })

pub data Step : Process → Process → Type 0 where
  coordinate : {p q : Process} → Coordinate p q → Step p q
  -- SIGTERM or an interrupt
  signal : (p : Process) → Step p (record p { cancelled = true })
  -- `router.SetReady(true)` before ListenAndServe
  http_starts :
      (p : Process) → p.http ≡ starting → Step p (record p { ready = true; http = running })
  -- ErrServerClosed, which ListenAndServe returns after a Shutdown, and other errors
  http_closed :
      (p : Process) → p.http ≡ running → p.http_shut ≡ true → Step p (record p { http = ended })
  http_fails :
      (p : Process) (e : GoError) → p.http ≡ running → Step p (fail e (record p { http = ended }))
  metrics_starts : (p : Process) → p.metrics ≡ starting → Step p (record p { metrics = running })
  metrics_closed :
      (p : Process)
      → p.metrics ≡ running
      → p.metrics_shut ≡ true
      → Step p (record p { metrics = ended })
  metrics_fails :
      (p : Process) (e : GoError)
      → p.metrics ≡ running
      → Step p (fail e (record p { metrics = ended }))
  -- Consume in Supervisor.Run, with and without an error
  consume_fails :
      (p : Process) (e : GoError)
      → p.supervisor ≡ starting
      → Step p (fail e (record p { supervisor = ended }))
  consumes : (p : Process) → p.supervisor ≡ starting → Step p (record p { supervisor = running })
  -- the loop behind Consume, with its goroutines, which live on after it
  supervise :
      (p : Process) {l : Loop}
      → (p.supervisor ≡ running) ⊎ (p.loop.place ≡ Loop.returned)
      → LoopStep p.loop l
      → (l.cancelled ≡ true → p.cancelled ≡ true)
      → Step p (record p { loop = l })
  supervisor_returns :
      (p : Process)
      → p.supervisor ≡ running
      → p.loop.place ≡ Loop.returned
      → Step p (record p { supervisor = ended })
  -- ctx.Done() of the two tickers
  scheduler_returns :
      (p : Process)
      → p.scheduler ≡ running
      → p.cancelled ≡ true
      → Step p (record p { scheduler = ended })
  monitor_returns :
      (p : Process)
      → p.monitor ≡ running
      → p.cancelled ≡ true
      → Step p (record p { monitor = ended })

pub data Reach (p : Process) : Process → Type 0 where
  here : Reach p p
  next : {q r : Process} → Reach p q → Step q r → Reach p r
