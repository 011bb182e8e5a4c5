-- ===== src/Tests/Once.antt =====
-- Repeated deliveries over the key-value server in memory.
use qtip_challenge.Base.{ℕ, String, none, some, [], ◌≡◌, inl, inr, refl, arith}
use qtip_challenge.Base.Int.{pos, ◌-ℤ◌, div_floor, div_trunc}
use qtip_challenge.Base.Decimal.{itoa}
use qtip_challenge.Base.Decimal.Laws.{value as read_digits}
use qtip_challenge.Domain.Errors.{plain}
use qtip_challenge.Domain.Retry.{second}
use qtip_challenge.Worker.Ports.{returns, Run}
use qtip_challenge.Worker.Protocol.Safety.{count, is_sent, is_acked}
use qtip_challenge.Worker.Supervisor.{
  attempt_key, process_task, process_body, after_set_processing, deliver, after_send, delivered,
  recover, release,
}
use qtip_challenge.Redis.Client.{value}
use qtip_challenge.Redis.Idempotency.{
  idempotency_key, IdempotencyRecord, set_processing, set_completed, idempotency_script, write_lock,
  script_answer,
}
use qtip_challenge.Redis.Idempotency.Lock.{Holds, lock_of}
use qtip_challenge.Redis.Consumer.{acknowledge}
use qtip_challenge.Redis.Retry.{corrupt}
use qtip_challenge.Wiring.{Outside, email_sender, wired}
use qtip_challenge.Wiring.Sound.{IsSound}
use qtip_challenge.Wiring.Once.{locked_is_left_alone, redeliveries, marked_is_not_resent}
use qtip_challenge.Tests.Sample.{thousandths, settings, welcome}
use qtip_challenge.Tests.Server.{
  Keys, stored, memory, memory-IsRedis, plain_formats, plain_formats-IsFaithful, encode, to_number,
}

-- A provider that accepts every email, and a clock that stands still.
abbrev outside : Outside ℕ Keys
outside = record {
  keys = memory;
  groups = record {
    create_group = λ k s. (none, s);
    xack = λ k id s. (none, s);
    xautoclaim = λ k d s. (value [], s);
  };
  lists = record {
    push = λ k v ttl s. (none, s);
    llen = λ k s. ((none, pos 0), s);
    lrange = λ k a b s. ((none, []), s);
  };
  sorted_sets = record {
    zadd_nx = λ k score m s. (none, s);
    zrange_by_score = λ k limit n s. ((none, []), s);
    exec = λ cs s. (([], none), s);
  };
  formats = plain_formats;
  tasks = record {
    marshal = λ t. inl t.id;
    unmarshal = λ s. corrupt (plain "EOF");
    marshal_poison = λ e. inl e.raw_member;
  };
  entries = record { marshal = λ e. inl e.task.id; unmarshal = λ s. inr (plain "EOF") };
  quoted = λ s. s;
  sendgrid = λ t s. (returns none, s);
  stub = λ t s. (returns none, s);
  clock = λ s. (pos second, s);
  draw = λ s. (500, s);
}

outside-IsSound : IsSound thousandths settings outside
outside-IsSound = record {
  redis = memory-IsRedis;
  faithful = plain_formats-IsFaithful;
  clock_keeps = λ j s. refl;
  xack_keeps = λ stream id j s. refl;
  sendgrid_keeps = λ t j s. refl;
  stub_keeps = λ t j s. refl;
}

-- A first delivery of `welcome` that finds these keys.
abbrev delivery : Keys → Run Keys
delivery s = record {
  world = s;
  task = welcome;
  tokens = 1;
  active = 0;
  total_processed = 0;
  total_failed = 0;
  total_retried = 0;
  log = [];
}

abbrev first_key : String
first_key = attempt_key "t-1" (pos 0)

abbrev holding : IdempotencyRecord → Keys
holding rec = stored (idempotency_key first_key) (some (plain_formats.encode rec)) (λ k. none)

abbrev done : IdempotencyRecord
done = record {
  status = "completed";
  worker_id = "";
  started_at = "";
  completed_at = "2026-01-01T00:00:00Z";
}

-- The lock has been held since 0, for one second of 30.
locked_is_left_alone_example :
    let r' =
      (process_task thousandths settings.worker
        (wired thousandths settings outside)
        (delivery (holding (lock_of memory plain_formats "pod:2" (pos 0))))).1 in
    (count is_sent r'.log ≡ 0)
    × (count is_acked r'.log ≡ 0)
    × Holds memory plain_formats first_key (lock_of memory plain_formats "pod:2" (pos 0)) r'.world
unfolding idempotency_key attempt_key itoa ◌-ℤ◌ div_floor div_trunc
locked_is_left_alone_example =
    locked_is_left_alone thousandths settings outside outside-IsSound "pod:2" (pos 0)
      (delivery (holding (lock_of memory plain_formats "pod:2" (pos 0)))) (λ w. omega arith) refl
      refl

marked_is_not_resent_example :
    let r' =
      (process_task thousandths settings.worker
        (wired thousandths settings outside)
        (delivery (λ k. none))).1 in
    redeliveries thousandths settings outside 3 welcome r' ≡ 0
unfolding process_task process_body after_set_processing deliver after_send delivered recover
    release wired email_sender acknowledge set_processing set_completed idempotency_script
    write_lock script_answer idempotency_key attempt_key itoa read_digits to_number div_floor encode
marked_is_not_resent_example =
    marked_is_not_resent thousandths settings outside outside-IsSound (delivery (λ k. none)) 3 refl
      (omega arith)
