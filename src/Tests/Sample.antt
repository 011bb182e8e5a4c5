-- ===== src/Tests/Sample.antt =====
-- Concrete inputs: a task, a configuration, floats as thousandths, and ports with fixed answers.
use qtip_challenge.Base.{◌∷◌, ℕ, ◌+◌, ◌*◌, ◌/◌, ◌^◌, none, true, [], ltb}
use qtip_challenge.Base.Int.{pos, pos_part}
use qtip_challenge.Domain.Errors.{GoError, plain}
use qtip_challenge.Domain.Task.{EmailTask}
use qtip_challenge.Domain.Retry.{Float64, second}
use qtip_challenge.Config.Types.{WorkerConfig, Config}
use qtip_challenge.Worker.Ports.{returns, Failable, Ports, Run}

-- Non-negative numbers in thousandths, rounded down.
abbrev pub thousandths : Float64
thousandths = record {
  Carrier = ℕ;
  of_int = λ z. pos_part z * 1000;
  to_int = λ x. pos (x / 1000);
  mul = λ x y. x * y / 1000;
  add = λ x y. x + y;
  pow = λ x y. (x / 1000) ^ (y / 1000) * 1000;
  less = ltb;
  ratio = λ n d. n * 1000 / d;
}

abbrev pub welcome : EmailTask
welcome = record {
  id = "t-1";
  tenant_id = "acme";
  type = "registration";
  priority = pos 1;
  recipient = "a@example.com";
  template_id = "welcome";
  template_data = none;
  enqueued_at = pos 0;
  scheduled_for = none;
  attempt = pos 0;
  max_attempts = pos 2;
  status = "pending";
  last_error = "";
  trace_id = "";
  span_id = "";
  metadata = none;
}

abbrev pub worker_config : WorkerConfig
worker_config = record {
  pool_size = pos 50;
  consumer_group = "email-workers";
  consumer_name = "pod:1";
  block_timeout = pos (5 * second);
  claim_idle_threshold = pos (30 * second);
  drain_timeout = pos (30 * second);
}

-- Every port answers the same at each call; the sender answers `a`.
abbrev pub steady : Failable → Ports ℕ (Unit {0})
steady a = record {
  acknowledge = λ t w. (returns none, w);
  nack = λ t e w. (returns none, w);
  set_processing = λ k n w. (returns (true, none), w);
  set_completed = λ k w. (returns none, w);
  is_completed = λ k w. (returns (true, none), w);
  clear_processing = λ k w. (returns none, w);
  try_reclaim_stale = λ k n d w. (returns (true, none), w);
  send = λ t w. (a, w);
  send_to_dlq = λ entry w. (returns none, w);
  schedule_retry = λ t d w. (returns none, w);
  now = λ w. (pos 0, w);
  draw = λ w. (500, w);
}

abbrev pub outage : GoError
outage = plain "sendgrid: server error 503: "

abbrev pub begun : Run (Unit {0})
begun = record {
  world = tt;
  task = welcome;
  tokens = 1;
  active = 0;
  total_processed = 0;
  total_failed = 0;
  total_retried = 0;
  log = [];
}

abbrev pub settings : Config thousandths
settings = record {
  redis = record {
    url = "redis://localhost:6379";
    password = "";
    db = pos 0;
    pool_size = pos 20;
    min_idle_conns = pos 5;
    dial_timeout = pos (5 * second);
    read_timeout = pos (3 * second);
    write_timeout = pos (3 * second);
  };
  worker = worker_config;
  retry = record {
    base_delay = pos second;
    max_delay = pos (900 * second);
    jitter_factor = 200;
    scheduler_interval = pos second;
    dlq_ttl_seconds = pos 604800;
    dlq_monitor_interval = pos (30 * second);
    dlq_alert_threshold = pos 100;
  };
  email = record {
    sendgrid_api_key = "";
    from_email = "";
    from_name = "";
    stub_fail_rate = 50;
    stub_latency = pos 1000000;
  };
  observability = record {
    log_level = "INFO";
    log_format = "json";
    otel_endpoint = "";
    service_name = "qtip";
    metrics_port = pos 9090;
  };
  server = record {
    http_port = pos 8080;
    api_keys = "k-1" ∷ [];
    read_timeout = pos (10 * second);
    write_timeout = pos (10 * second);
  };
}
