-- ===== src/Tests/Supervisor.antt =====
-- Runs of a worker goroutine.
use mathlib.Core.List.{head?}
use qtip_challenge.Base.{◌≤◌, ◌≡◌, ◌⊎◌, refl, none, some, arith, All}
use qtip_challenge.Domain.Errors.{is_error}
use qtip_challenge.Domain.Task.{is_poison_message}
use qtip_challenge.Worker.Ports.{returns, panics, stats_recorded}
use qtip_challenge.Worker.Protocol.{Ends}
use qtip_challenge.Worker.Protocol.Safety.{count, is_sent, is_acked, is_nacked, AcksSecured}
use qtip_challenge.Worker.Supervisor.{
  process_task, process_body, after_set_processing, deliver, after_send, delivered, recover,
  release, is_permanent,
}
use qtip_challenge.Worker.Supervisor.Follows.{process_task-Ends}
use qtip_challenge.Worker.Supervisor.Settles.{
  process_task_sends_once, process_task-AcksSecured, process_task_settles_once,
}
use qtip_challenge.Worker.Supervisor.Genuine.{Genuine, process_task-Genuine}
use qtip_challenge.Worker.Supervisor.Slots.{process_task_frees_slot}
use qtip_challenge.Worker.Supervisor.Exhaustion.{AlwaysFails, sends, sends_until_dead}
use qtip_challenge.Tests.Sample.{thousandths, worker_config, steady, outage, begun, welcome}

-- The provider is down: the retry of the task is scheduled.
process_task-Ends_example :
    let (a, r') = process_task thousandths worker_config (steady (returns (some outage))) begun in
    Ends a r'.log
process_task-Ends_example =
    process_task-Ends thousandths worker_config (steady (returns (some outage))) begun refl

process_task_sends_once_example :
    count is_sent (process_task thousandths worker_config (steady (panics "nil map")) begun).1.log
    ≤ 1
process_task_sends_once_example =
    process_task_sends_once thousandths worker_config (steady (panics "nil map")) begun refl

process_task-AcksSecured_example :
    AcksSecured
      (process_task thousandths worker_config (steady (returns (some outage))) begun).1.log
process_task-AcksSecured_example =
    process_task-AcksSecured thousandths worker_config (steady (returns (some outage))) begun refl

process_task-Genuine_example :
    All
      (Genuine welcome)
      (process_task thousandths worker_config (steady (returns (some outage))) begun).1.log
process_task-Genuine_example =
    process_task-Genuine thousandths worker_config (steady (returns (some outage))) begun refl

process_task_settles_once_example :
    let r' = (process_task thousandths worker_config (steady (returns none)) begun).1 in
    (process_task thousandths worker_config (steady (returns none)) begun).0 ≡ returns tt
    × (((count is_acked r'.log ≡ 1) × (count is_nacked r'.log ≡ 0))
        ⊎ ((count is_acked r'.log ≡ 0) × (count is_nacked r'.log ≡ 1)))
unfolding process_task process_body after_set_processing deliver after_send delivered recover
    release
process_task_settles_once_example =
    process_task_settles_once thousandths worker_config (steady (returns none)) begun refl refl

process_task_frees_slot_example :
    let r' = (process_task thousandths worker_config (steady (panics "nil map")) begun).1 in
    (r'.tokens ≡ 0) × (r'.active ≡ 0) × (head? r'.log ≡ some (stats_recorded 0))
process_task_frees_slot_example =
    process_task_frees_slot thousandths worker_config (steady (panics "nil map")) begun

steady-AlwaysFails : AlwaysFails thousandths worker_config (steady (returns (some outage))) outage
unfolding is_permanent is_error
steady-AlwaysFails = record {
  transient = refl;
  locks = λ k n w. refl;
  fails = λ t w. refl;
  stores = λ entry w. refl;
  schedules = λ t d w. refl;
  acks = λ t w. refl;
}

-- `welcome` has max_attempts 2 and is sent three times.
sends_until_dead_example :
    sends thousandths worker_config (steady (returns (some outage))) 5 begun ≡ 3
unfolding is_poison_message
sends_until_dead_example =
    sends_until_dead thousandths worker_config (steady (returns (some outage))) outage
      steady-AlwaysFails 5 2 0 begun refl refl refl refl (omega arith)
