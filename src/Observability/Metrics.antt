-- ===== src/Observability/Metrics.antt =====
-- The recorder of internal/observability/metrics.go: counters, gauges and a histogram by their labels.
-- `Seconds` is float64.
use qtip_challenge.Base.{
  ℕ, ◌+◌, String, Bool, true, false, ◌&&◌, Option, none, some, List, [], ◌∷◌, ◌≡◌, refl, arith,
  length, str_eq, if◌then◌else◌,
}
use qtip_challenge.Base.Int.{ℤ}
use qtip_challenge.Domain.Stats.{WorkerStats}

-- The values of the labels of a metric, in order.
abbrev pub Labels : Type 0
Labels = List String

abbrev pub same_labels : Labels → Labels → Bool
same_labels [] [] = true
same_labels (a ∷ as') (b ∷ bs) = str_eq a b && same_labels as' bs
same_labels _ _ = false

-- The first labels are those of the second list.
abbrev starts : Labels → Labels → Bool
starts l [] = true
starts [] (b ∷ bs) = false
starts (a ∷ as') (b ∷ bs) = str_eq a b && starts as' bs

-- WithLabelValues and an update of that one value.
abbrev pub at_labels {ℓ} : {A : Type ℓ} → Labels → (A → A) → (Labels → A) → Labels → A
at_labels labels f values l = if same_labels labels l then f (values l) else values l

module _ (Seconds : Type 0) where
  -- A gauge that was never set has no value for its labels.
  pub record PrometheusRecorder : Type 0 where
    pub enqueued_total : Labels → ℕ
    pub processed_total : Labels → ℕ
    pub processing_duration_seconds : Labels → List Seconds
    pub queue_depth : Labels → Option Seconds
    pub dlq_depth : Labels → Option Seconds
    pub worker_active : Option ℤ
    pub worker_pool_size : Option ℤ

  unfoldable pub new_prometheus_recorder : PrometheusRecorder
  new_prometheus_recorder = record {
    enqueued_total = λ l. 0;
    processed_total = λ l. 0;
    processing_duration_seconds = λ l. [];
    queue_depth = λ l. none;
    dlq_depth = λ l. none;
    worker_active = none;
    worker_pool_size = none;
  }

  unfoldable pub record_enqueued :
      String → String → String → PrometheusRecorder → PrometheusRecorder
  record_enqueued tenant_id task_type priority r = record r {
    enqueued_total =
        at_labels (tenant_id ∷ task_type ∷ priority ∷ []) (λ n. n + 1) r.enqueued_total;
  }

  unfoldable pub record_processed :
      String → String → String → Seconds → PrometheusRecorder → PrometheusRecorder
  record_processed tenant_id task_type status duration r = record r {
    processed_total =
        at_labels (tenant_id ∷ task_type ∷ status ∷ []) (λ n. n + 1) r.processed_total;
    processing_duration_seconds =
        at_labels (tenant_id ∷ task_type ∷ []) (λ ds. duration ∷ ds) r.processing_duration_seconds;
  }

  unfoldable pub record_queue_depth : String → Seconds → PrometheusRecorder → PrometheusRecorder
  record_queue_depth queue_name depth r = record r {
    queue_depth = at_labels (queue_name ∷ []) (λ old. some depth) r.queue_depth;
  }

  unfoldable pub record_dlq_depth :
      String → String → Seconds → PrometheusRecorder → PrometheusRecorder
  record_dlq_depth tenant_id task_type depth r = record r {
    dlq_depth = at_labels (tenant_id ∷ task_type ∷ []) (λ old. some depth) r.dlq_depth;
  }

  unfoldable pub record_worker_stats : WorkerStats → PrometheusRecorder → PrometheusRecorder
  record_worker_stats stats r = record r {
    worker_active = some stats.active_workers;
    worker_pool_size = some stats.pool_size;
  }

  -- The calls of the interface.
  data Call : Type 0 where
    enqueued : String → String → String → Call
    processed : String → String → String → Seconds → Call
    queue_depth_read : String → Seconds → Call
    dlq_depth_read : String → String → Seconds → Call
    stats_read : WorkerStats → Call

  after_calls : List Call → PrometheusRecorder
  unfolding record_enqueued record_processed record_queue_depth record_dlq_depth record_worker_stats
      new_prometheus_recorder
  after_calls [] = new_prometheus_recorder
  after_calls (enqueued t k p ∷ cs) = record_enqueued t k p (after_calls cs)
  after_calls (processed t k s d ∷ cs) = record_processed t k s d (after_calls cs)
  after_calls (queue_depth_read q d ∷ cs) = record_queue_depth q d (after_calls cs)
  after_calls (dlq_depth_read t k d ∷ cs) = record_dlq_depth t k d (after_calls cs)
  after_calls (stats_read s ∷ cs) = record_worker_stats s (after_calls cs)

  -- The calls with a test on their labels, by tenant, type and status.
  how_many : (Labels → Bool) → List Call → ℕ
  how_many p [] = 0
  how_many p (processed t k s d ∷ cs) =
      let rest = how_many p cs in if p (t ∷ k ∷ s ∷ []) then rest + 1 else rest
  how_many p (enqueued t k q ∷ cs) = how_many p cs
  how_many p (queue_depth_read q d ∷ cs) = how_many p cs
  how_many p (dlq_depth_read t k d ∷ cs) = how_many p cs
  how_many p (stats_read s ∷ cs) = how_many p cs

  -- After any calls, the latest first, the counter of a tenant, a type and a status has the number of
  -- the RecordProcessed calls with these, and the histogram of a tenant and a type has as many
  -- observations as there were calls with these two, whatever their status.
  processed_counts :
      (calls : List Call) (tenant_id task_type status : String)
      → let r = after_calls calls in
        (r.processed_total (tenant_id ∷ task_type ∷ status ∷ [])
          ≡ how_many (λ l. same_labels l (tenant_id ∷ task_type ∷ status ∷ [])) calls)
        × (length (r.processing_duration_seconds (tenant_id ∷ task_type ∷ []))
            ≡ how_many (λ l. starts l (tenant_id ∷ task_type ∷ [])) calls)
  unfolding after_calls how_many record_enqueued record_processed record_queue_depth
      record_dlq_depth record_worker_stats new_prometheus_recorder
  processed_counts [] a b c = (refl, refl)
  processed_counts (enqueued t k p ∷ cs) a b c = processed_counts cs a b c
  processed_counts (processed t k s d ∷ cs) a b c = ground (arith, processed_counts cs a b c)
  processed_counts (queue_depth_read q d ∷ cs) a b c = processed_counts cs a b c
  processed_counts (dlq_depth_read t k d ∷ cs) a b c = processed_counts cs a b c
  processed_counts (stats_read s ∷ cs) a b c = processed_counts cs a b c
