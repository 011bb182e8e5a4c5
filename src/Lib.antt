-- ===== src/Lib.antt =====
-- A model of the email queue of this repository in cubical type theory, with theorems on it.
--
-- The program: producers validate email tasks and append them to Redis streams by priority. A
-- consumer reads them for the supervisor (internal/worker/supervisor.go), which starts a goroutine
-- for each task under a semaphore. A goroutine takes the idempotency lock of the attempt, sends the
-- email, and then acknowledges the message, schedules a retry, or writes the task to a dead-letter
-- queue. A scheduler moves due retries back to the streams, and a monitor watches the queues.
--
-- The files:
--   Base           library names, tests on numbers, Go's integers, maps, decimal printing
--   Domain         internal/domain: task types, priorities, statuses, tasks, errors, retry delays
--   Config         internal/config/config.go: the records, Load over an environment, and Validate
--   Observability  internal/observability: the level of logger.go, and the recorder of metrics.go
--   Worker/Ports   internal/ports: what a goroutine calls, and the monad of its steps
--   Worker/Supervisor  internal/worker/supervisor.go: processTask with its two defers, one function
--                  for each part of the body up to a call; its children hold the proofs, and
--                  Gate what ports that refuse an attempt make of a run
--   Worker/Protocol    the specification of processTask: an automaton over the calls of the ports
--   Worker/Pool    dispatch, the semaphore and the active count under all interleavings
--   Worker/Loop    Run and dispatch with cancellation, the claim ticker and waitForWorkers, as steps
--                  beside those of the pool
--   Worker/Ticker  what wakes the select loops of the two monitors
--   Worker/DlqMonitor  internal/worker/dlq_monitor.go: parseDLQKey, scrape and Run
--   Worker/DelayedScheduler  internal/worker/delayed_scheduler.go: Run; Moves follows a retry from
--                  ScheduleRetry through the ticks to its stream
--   Email          internal/adapters/email: circuit_breaker.go, sendgrid_sender.go, where Request
--                  has the HTTP requests, and stub_sender.go
--   Redis          internal/adapters/redis: idempotency.go with the scripts of scripts.go,
--                  dlq_writer.go, retry_scheduler.go, stream_entry.go,
--                  producer.go, and consumer.go; Poll holds its poll loop and channel;
--                  Connection has client.go and LoadScripts
--   Wiring         cmd/server/main.go, steps 5 and 6: the supervisor over the adapters
--   Process        cmd/server/main.go, step 8: the goroutines of the errgroup and the shutdown
--                  coordinator, as steps beside those of Worker/Loop; Boot has steps 1 to 4
--   Stubs          internal/adapters/stubs/stubs.go: the ports that do nothing
--   Http           internal/adapters/http: requests and responses, the middlewares, the handlers and
--                  the routes of the router
--   Tests          concrete inputs, servers in memory, and the theorems applied to them
--
-- How the code corresponds: a method of the source is a function of the same name in snake case. A
-- Go error is a value of GoError, nil is `none`, and a pair of results is a pair. State that the
-- code mutates is passed on: the task, the counters and the semaphore of a goroutine in the record
-- Run, the breaker as a record, a Redis server as a type S with the commands that the code calls. A
-- panic is a reply of a port and ends the steps that follow up to the defers. Integers are
-- unbounded; the counters and sums that the code forms are taken to stay in range.
--
-- Parameters: the ports of the supervisor are any functions over any world, with no law. Float64
-- operations, the random draw, the parsing of floats and durations, and the environment are any
-- functions; the defaults of the configuration take 0 and 0.2 to lie in [0, 1] (HasUnit). Redis
-- commands, JSON, clock formats and chi are records of functions; the theorems that need their
-- documented behaviour take it as a record (IsRedis, IsFaithful, IsServer, IsStreamLog, IsSortedSet,
-- IsLists, IsStreams, IsClaiming, IsCaller, IsMux, IsPrompt, IsNeutral), and Tests/Server, Tests/Queues,
-- Tests/Delays, Tests/Streams, Tests/Claims, Tests/Booting and Tests/Http have instances that satisfy
-- it. Keys do not expire within a theorem on locks.
--
-- Fuel: `emit` prints n with n rounds, each of which drops a digit. `sends` spends a round on each
-- attempt, and its theorem takes any number of rounds above the attempts that are left.
--
-- Interplay: Worker/Supervisor/Gate states what the supervisor needs of an idempotency store, as a
-- record; Wiring/Sound fills it with the laws of Redis/Idempotency.
-- Worker/DelayedScheduler/Moves runs the scheduler over FlushReady of Redis/Retry, and Process runs
-- the coordinator beside the steps of Worker/Loop and Worker/Pool.
--
-- Not modelled: spans and logs but the access log and what the monitors log, and the set-up of
-- logging and tracing, which call libraries only. The adapters' calls of the metrics recorder are left
-- out of their models; the recorder itself stands alone. In Process no goroutine panics, and an error
-- of main's start ends it without the deferred stop of the signal handler.
pub mod Base
pub mod Domain
pub mod Config
pub mod Worker
pub mod Email
pub mod Redis
pub mod Wiring
pub mod Process
pub mod Stubs
pub mod Observability
pub mod Http
pub mod Tests
