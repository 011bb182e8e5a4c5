-- ===== src/Domain/Stats.antt =====
-- internal/domain/stats.go.
use qtip_challenge.Base.{String}
use qtip_challenge.Base.Int.{ℤ}
use qtip_challenge.Domain.Priority.{Priority}

pub record WorkerStats : Type 0 where
  pub active_workers : ℤ
  pub pool_size : ℤ
  pub total_processed : ℤ
  pub total_failed : ℤ
  pub total_retried : ℤ
  pub queue_depth : ℤ
  pub dlq_depth : ℤ

-- No code of the repository uses it.
pub record TenantConfig : Type 0 where
  pub tenant_id : String
  pub max_retries : ℤ
  pub default_priority : Priority
  pub rate_limit_per_minute : ℤ
