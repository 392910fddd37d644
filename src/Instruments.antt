-- ===== src/Instruments.antt =====
-- internal/metrics/metrics.go: the metrics that are registered when the program starts, without their
-- help texts. A metric that is no vector has no labels. Bounds are in thousandths of the unit.
pub mod Calls
pub mod Declared
use go_tempo.Base.{ℕ, String, List, [], ◌∷◌, ◌++◌}

-- The upper bounds of a histogram: prometheus.DefBuckets, what prometheus.ExponentialBuckets returns
-- for its arguments, or a list.
pub data Buckets : Type 0 where
  default_buckets : Buckets
  exponential : (start factor count : ℕ) → Buckets
  bounds : List ℕ → Buckets

pub data Kind : Type 0 where
  counter gauge : Kind
  histogram : Buckets → Kind

pub record Instrument : Type 0 where
  pub name : String
  pub kind : Kind
  pub labels : List String

abbrev instrument : String → Kind → List String → Instrument
instrument name kind labels = record { name = name; kind = kind; labels = labels }

unfoldable pub http_metrics : List Instrument
http_metrics =
    instrument "http_requests_total" counter ("method" ∷ "endpoint" ∷ "status" ∷ [])
    ∷ instrument "http_request_duration_seconds" (histogram default_buckets)
        ("method" ∷ "endpoint" ∷ [])
    ∷ instrument "http_request_size_bytes" (histogram (exponential 100000 10 7))
        ("method" ∷ "endpoint" ∷ [])
    ∷ instrument "http_response_size_bytes" (histogram (exponential 100000 10 7))
        ("method" ∷ "endpoint" ∷ [])
    ∷ instrument "workflows_submitted_total" counter ("workflow_type" ∷ [])
    ∷ []

unfoldable pub worker_metrics : List Instrument
worker_metrics =
    instrument "worker_tasks_processed_total" counter ("action" ∷ "status" ∷ [])
    ∷ instrument "worker_task_duration_seconds" (histogram (exponential 100 2 10)) ("action" ∷ [])
    ∷ instrument "worker_queue_wait_time_seconds"
        (histogram
          (bounds (100 ∷ 500 ∷ 1000 ∷ 2000 ∷ 5000 ∷ 10000 ∷ 30000 ∷ 60000 ∷ 120000 ∷ 300000 ∷ [])))
        []
    ∷ instrument "worker_claim_failures_total" counter []
    ∷ instrument "worker_retries_total" counter ("action" ∷ "retry_attempt" ∷ [])
    ∷ instrument "worker_active_tasks" gauge ("worker_id" ∷ [])
    ∷ instrument "worker_registry_errors_total" counter ("action" ∷ [])
    ∷ []

unfoldable pub coordinator_metrics : List Instrument
coordinator_metrics =
    instrument "coordinator_events_processed_total" counter ("event_type" ∷ [])
    ∷ instrument "coordinator_tasks_unblocked_total" counter []
    ∷ instrument "coordinator_dag_resolution_duration_seconds"
        (histogram (bounds (1 ∷ 5 ∷ 10 ∷ 50 ∷ 100 ∷ 500 ∷ 1000 ∷ 2000 ∷ 5000 ∷ []))) []
    ∷ instrument "coordinator_workflow_completions_total" counter ("status" ∷ [])
    ∷ instrument "coordinator_skip_propagations_total" counter []
    ∷ []

unfoldable pub database_metrics : List Instrument
database_metrics =
    instrument "db_query_duration_seconds"
      (histogram (bounds (1 ∷ 5 ∷ 10 ∷ 50 ∷ 100 ∷ 500 ∷ 1000 ∷ 2000 ∷ 5000 ∷ [])))
      ("operation" ∷ [])
    ∷ instrument "db_query_errors_total" counter ("operation" ∷ [])
    ∷ instrument "db_transactions_total" counter ("status" ∷ [])
    ∷ instrument "db_optimistic_lock_conflicts_total" counter ("operation" ∷ [])
    ∷ instrument "db_connection_pool_size" gauge ("state" ∷ [])
    ∷ []

unfoldable pub redis_metrics : List Instrument
redis_metrics =
    instrument "redis_queue_push_total" counter ("status" ∷ [])
    ∷ instrument "redis_queue_pop_duration_seconds"
        (histogram (bounds (1 ∷ 5 ∷ 10 ∷ 50 ∷ 100 ∷ 500 ∷ 1000 ∷ 5000 ∷ 10000 ∷ []))) []
    ∷ instrument "redis_queue_depth" gauge []
    ∷ instrument "redis_pubsub_messages_published_total" counter ("channel" ∷ [])
    ∷ instrument "redis_pubsub_messages_received_total" counter ("channel" ∷ [])
    ∷ instrument "redis_connection_errors_total" counter ("operation" ∷ [])
    ∷ []

unfoldable pub business_metrics : List Instrument
business_metrics =
    instrument "workflows_in_progress" gauge ("workflow_type" ∷ [])
    ∷ instrument "tasks_by_status" gauge ("status" ∷ [])
    ∷ instrument "workflow_execution_duration_seconds"
        (histogram (
          bounds (
            1000 ∷ 5000 ∷ 10000 ∷ 30000 ∷ 60000 ∷ 120000 ∷ 300000 ∷ 600000 ∷ 1800000 ∷ 3600000
            ∷ [])))
        ("workflow_type" ∷ "status" ∷ [])
    ∷ instrument "task_retry_exhaustion_total" counter ("action" ∷ [])
    ∷ instrument "dag_depth_longest_path"
        (histogram (bounds (1000 ∷ 2000 ∷ 5000 ∷ 10000 ∷ 20000 ∷ 50000 ∷ 100000 ∷ [])))
        ("workflow_type" ∷ [])
    ∷ []

unfoldable pub all_metrics : List Instrument
unfolding http_metrics worker_metrics coordinator_metrics database_metrics redis_metrics
    business_metrics
all_metrics =
    http_metrics ++ worker_metrics ++ coordinator_metrics ++ database_metrics ++ redis_metrics
    ++ business_metrics
