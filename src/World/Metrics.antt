-- ===== src/World/Metrics.antt =====
-- internal/metrics/metrics.go: what the modelled code does to the counters, the gauges and the
-- histograms of sizes, with their labels. Durations are observations of a clock and left out. A
-- gauge that is set has the value of its newest entry.
use go_tempo.Base.{ℕ, ℤ, String}

pub data Metric : Type 0 where
  workflows_submitted : String → Metric
  worker_tasks_processed : (action status : String) → Metric
  worker_active_inc worker_active_dec : (worker : String) → Metric
  worker_claim_failures : Metric
  worker_registry_errors : (action : String) → Metric
  worker_retries : (action : String) (retry : ℕ) → Metric
  task_retry_exhaustion : (action : String) → Metric
  coordinator_events_processed : (type : String) → Metric
  coordinator_tasks_unblocked : Metric
  coordinator_skip_propagations : Metric
  coordinator_workflow_completions : (status : String) → Metric
  db_query_errors : (operation : String) → Metric
  db_transactions : (status : String) → Metric
  db_optimistic_lock_conflicts : (operation : String) → Metric
  redis_queue_push : (status : String) → Metric
  redis_connection_errors : (operation : String) → Metric
  redis_messages_published : (type : String) → Metric
  redis_messages_received : (type : String) → Metric
  http_requests_total : (method endpoint : String) (status : ℕ) → Metric
  http_request_size http_response_size : (method endpoint : String) (bytes : ℤ) → Metric
  db_connection_pool_size : (state : String) (connections : ℕ) → Metric
  redis_queue_depth : ℕ → Metric
