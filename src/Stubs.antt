-- ===== src/Stubs.antt =====
-- internal/adapters/stubs/stubs.go: the ports that do nothing and succeed. The clock and the random
-- numbers of the supervisor stay parameters.
pub mod Deliveries
use qtip_challenge.Base.{ℕ, String, Bool, true, false, Option, none, List, []}
use qtip_challenge.Base.Int.{ℤ, pos}
use qtip_challenge.Base.Assoc.{GoMap}
use qtip_challenge.Domain.Errors.{GoError}
use qtip_challenge.Domain.Task.{EmailTask, DlqEntry}
use qtip_challenge.Worker.Ports.{returns, Ports}
use qtip_challenge.Worker.Loop.{Loop}

-- StubProducer
unfoldable pub enqueue : EmailTask → Option GoError
enqueue t = none

unfoldable pub enqueue_batch : List EmailTask → Option GoError
enqueue_batch ts = none

unfoldable pub enqueue_delayed : EmailTask → ℤ → Option GoError
enqueue_delayed t delay = none

-- StubConsumer: the channel of Consume is closed before the loop reads it.
unfoldable pub consume : Loop → Loop
consume l = record l { closed = true }

unfoldable pub claim_stale : ℤ → Option GoError × List EmailTask
claim_stale idle = (none, [])

-- StubRetryScheduler
unfoldable pub flush_ready : Option GoError × List EmailTask
flush_ready = (none, [])

-- StubDLQWriter
unfoldable pub list_dlq : String → String → ℤ → Option GoError × List DlqEntry
list_dlq tenant_id task_type limit = (none, [])

unfoldable pub dlq_depth : String → String → ℤ × Option GoError
dlq_depth tenant_id task_type = (pos 0, none)

-- StubEmailSender
unfoldable pub send_batch : List EmailTask → Option GoError
send_batch ts = none

unfoldable pub health_check : Option GoError
health_check = none

-- StubQueueDepthChecker
unfoldable pub queue_depth : String → ℤ × Option GoError
queue_depth stream = (pos 0, none)

unfoldable pub all_queue_depths : GoMap ℤ × Option GoError
all_queue_depths = ([], none)

-- The stubs as the ports of a worker goroutine. StubMetricsRecorder drops what the goroutine records.
unfoldable pub stub_ports : {Draw W : Type 0} → (W → ℤ × W) → (W → Draw × W) → Ports Draw W
stub_ports now draw = record {
  acknowledge = λ t w. (returns none, w);
  nack = λ t e w. (returns none, w);
  set_processing = λ k worker w. (returns (true, none), w);
  set_completed = λ k w. (returns none, w);
  is_completed = λ k w. (returns (false, none), w);
  clear_processing = λ k w. (returns none, w);
  try_reclaim_stale = λ k worker threshold w. (returns (false, none), w);
  send = λ t w. (returns none, w);
  send_to_dlq = λ e w. (returns none, w);
  schedule_retry = λ t delay w. (returns none, w);
  now = now;
  draw = draw;
}
