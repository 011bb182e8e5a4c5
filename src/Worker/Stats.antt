-- ===== src/Worker/Stats.antt =====
-- `Stats` of internal/worker/supervisor.go.
use qtip_challenge.Base.Int.{ℤ, pos}
use qtip_challenge.Domain.Stats.{WorkerStats}
use qtip_challenge.Worker.Ports.{Run}

-- The depths are not set.
unfoldable pub stats : {W : Type 0} → ℤ → Run W → WorkerStats
stats pool_size r = record {
  active_workers = pos r.active;
  pool_size = pool_size;
  total_processed = pos r.total_processed;
  total_failed = pos r.total_failed;
  total_retried = pos r.total_retried;
  queue_depth = pos 0;
  dlq_depth = pos 0;
}
