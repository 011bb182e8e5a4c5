-- ===== src/Config/Types.antt =====
-- The configuration records of internal/config/config.go. Durations are nanoseconds.
use qtip_challenge.Base.{String, List}
use qtip_challenge.Base.Int.{ℤ}
use qtip_challenge.Domain.Retry.{Float64}

pub record RedisConfig : Type 0 where
  pub url : String
  pub password : String
  pub db : ℤ
  pub pool_size : ℤ
  pub min_idle_conns : ℤ
  pub dial_timeout : ℤ
  pub read_timeout : ℤ
  pub write_timeout : ℤ

pub record WorkerConfig : Type 0 where
  pub pool_size : ℤ
  pub consumer_group : String
  pub consumer_name : String
  pub block_timeout : ℤ
  pub claim_idle_threshold : ℤ
  pub drain_timeout : ℤ

pub record ObservabilityConfig : Type 0 where
  pub log_level : String
  pub log_format : String
  pub otel_endpoint : String
  pub service_name : String
  pub metrics_port : ℤ

pub record ServerConfig : Type 0 where
  pub http_port : ℤ
  pub api_keys : List String
  pub read_timeout : ℤ
  pub write_timeout : ℤ

module _ (F : Float64) where
  pub record RetryConfig : Type 0 where
    pub base_delay : ℤ
    pub max_delay : ℤ
    pub jitter_factor : F.Carrier
    pub scheduler_interval : ℤ
    pub dlq_ttl_seconds : ℤ
    pub dlq_monitor_interval : ℤ
    pub dlq_alert_threshold : ℤ

  pub record EmailConfig : Type 0 where
    pub sendgrid_api_key : String
    pub from_email : String
    pub from_name : String
    pub stub_fail_rate : F.Carrier
    pub stub_latency : ℤ

  pub record Config : Type 0 where
    pub redis : RedisConfig
    pub worker : WorkerConfig
    pub retry : RetryConfig
    pub email : EmailConfig
    pub observability : ObservabilityConfig
    pub server : ServerConfig
