-- ===== src/Instruments/Calls.antt =====
-- The calls of the metrics in the other packages: the name of the metric, the method that is called on
-- it, and the arguments of WithLabelValues. Each type lists the calls of one file.
use go_tempo.Base.{ℕ, ◌+◌, String, List, [], ◌∷◌}

pub data Method : Type 0 where
  inc dec set observe : Method

pub record Call : Type 0 where
  pub name : String
  pub method : Method
  pub values : List String

abbrev call : String → Method → List String → Call
call name method values = record { name = name; method = method; values = values }

-- internal/api/middleware/prometheus.go
pub data MiddlewareCall : Type 0 where
  request_size request_duration response_size : (method path : String) → MiddlewareCall
  requests : (method path : String) (status : ℕ) → MiddlewareCall

-- `itoa` is strconv.Itoa.
unfoldable pub middleware_call : (itoa : ℕ → String) → MiddlewareCall → Call
middleware_call itoa (request_size method path) =
    call "http_request_size_bytes" observe (method ∷ path ∷ [])
middleware_call itoa (requests method path status) =
    call "http_requests_total" inc (method ∷ path ∷ itoa status ∷ [])
middleware_call itoa (request_duration method path) =
    call "http_request_duration_seconds" observe (method ∷ path ∷ [])
middleware_call itoa (response_size method path) =
    call "http_response_size_bytes" observe (method ∷ path ∷ [])

-- internal/api/handler/handler.go
unfoldable pub submission_call : Call
submission_call = call "workflows_submitted_total" inc ("default" ∷ [])

-- internal/worker/worker.go, in the order of the file.
pub data WorkerCall : Type 0 where
  queue_wait claim_failure : WorkerCall
  active active_no_more : (worker_id : String) → WorkerCall
  skipped unknown_action unknown_failed ran exhausted failed succeeded :
      (action : String) → WorkerCall
  retried : (action : String) (retry_count : ℕ) → WorkerCall

unfoldable pub worker_call : (itoa : ℕ → String) → WorkerCall → Call
worker_call itoa queue_wait = call "worker_queue_wait_time_seconds" observe []
worker_call itoa (active worker_id) = call "worker_active_tasks" inc (worker_id ∷ [])
worker_call itoa (active_no_more worker_id) = call "worker_active_tasks" dec (worker_id ∷ [])
worker_call itoa (skipped action) =
    call "worker_tasks_processed_total" inc (action ∷ "skipped" ∷ [])
worker_call itoa claim_failure = call "worker_claim_failures_total" inc []
worker_call itoa (unknown_action action) = call "worker_registry_errors_total" inc (action ∷ [])
worker_call itoa (unknown_failed action) =
    call "worker_tasks_processed_total" inc (action ∷ "failed" ∷ [])
worker_call itoa (ran action) = call "worker_task_duration_seconds" observe (action ∷ [])
worker_call itoa (retried action retry_count) =
    call "worker_retries_total" inc (action ∷ itoa (retry_count + 1) ∷ [])
worker_call itoa (exhausted action) = call "task_retry_exhaustion_total" inc (action ∷ [])
worker_call itoa (failed action) = call "worker_tasks_processed_total" inc (action ∷ "failed" ∷ [])
worker_call itoa (succeeded action) =
    call "worker_tasks_processed_total" inc (action ∷ "success" ∷ [])

-- internal/coordinator/coordinator.go. Both handlers observe `resolution` and count `unblocked`.
pub data CoordinatorCall : Type 0 where
  completed_event terminated_event resolution unblocked : CoordinatorCall
  workflow_completed skip_propagated workflow_failed : CoordinatorCall

unfoldable pub coordinator_call : CoordinatorCall → Call
coordinator_call completed_event = call "coordinator_events_processed_total" inc ("completed" ∷ [])
coordinator_call terminated_event =
    call "coordinator_events_processed_total" inc ("terminated" ∷ [])
coordinator_call resolution = call "coordinator_dag_resolution_duration_seconds" observe []
coordinator_call unblocked = call "coordinator_tasks_unblocked_total" inc []
coordinator_call workflow_completed =
    call "coordinator_workflow_completions_total" inc ("completed" ∷ [])
coordinator_call skip_propagated = call "coordinator_skip_propagations_total" inc []
coordinator_call workflow_failed = call "coordinator_workflow_completions_total" inc ("failed" ∷ [])

-- task_repository_impl.go of internal/core/postgres/repository, with the name of the operation.
pub data TaskRepositoryCall : Type 0 where
  task_query task_query_error lock_conflict : (operation : String) → TaskRepositoryCall
  transaction_failed transaction_done : TaskRepositoryCall

unfoldable pub task_repository_call : TaskRepositoryCall → Call
task_repository_call (task_query operation) =
    call "db_query_duration_seconds" observe (operation ∷ [])
task_repository_call (task_query_error operation) =
    call "db_query_errors_total" inc (operation ∷ [])
task_repository_call (lock_conflict operation) =
    call "db_optimistic_lock_conflicts_total" inc (operation ∷ [])
task_repository_call transaction_failed = call "db_transactions_total" inc ("failed" ∷ [])
task_repository_call transaction_done = call "db_transactions_total" inc ("success" ∷ [])

-- workflow_repository_impl.go of the same package.
pub data WorkflowRepositoryCall : Type 0 where
  workflow_query workflow_query_error : (operation : String) → WorkflowRepositoryCall

unfoldable pub workflow_repository_call : WorkflowRepositoryCall → Call
workflow_repository_call (workflow_query operation) =
    call "db_query_duration_seconds" observe (operation ∷ [])
workflow_repository_call (workflow_query_error operation) =
    call "db_query_errors_total" inc (operation ∷ [])

-- internal/infrastructure/redis/queue.go
pub data QueueCall : Type 0 where
  push_error push_connection pushed popped pop_connection : QueueCall

unfoldable pub queue_call : QueueCall → Call
queue_call push_error = call "redis_queue_push_total" inc ("error" ∷ [])
queue_call push_connection = call "redis_connection_errors_total" inc ("push" ∷ [])
queue_call pushed = call "redis_queue_push_total" inc ("success" ∷ [])
queue_call popped = call "redis_queue_pop_duration_seconds" observe []
queue_call pop_connection = call "redis_connection_errors_total" inc ("pop" ∷ [])

-- internal/infrastructure/redis/event_bus.go, for either channel.
pub data EventBusCall : Type 0 where
  publish_connection subscribe_connection : EventBusCall
  published received : (channel : String) → EventBusCall

unfoldable pub event_bus_call : EventBusCall → Call
event_bus_call publish_connection = call "redis_connection_errors_total" inc ("publish" ∷ [])
event_bus_call (published channel) = call "redis_pubsub_messages_published_total" inc (channel ∷ [])
event_bus_call (received channel) = call "redis_pubsub_messages_received_total" inc (channel ∷ [])
event_bus_call subscribe_connection = call "redis_connection_errors_total" inc ("subscribe" ∷ [])

-- internal/metrics/collector.go
pub data CollectorCall : Type 0 where
  idle_connections used_connections llen_connection depth : CollectorCall

unfoldable pub collector_call : CollectorCall → Call
collector_call idle_connections = call "db_connection_pool_size" set ("idle" ∷ [])
collector_call used_connections = call "db_connection_pool_size" set ("in_use" ∷ [])
collector_call llen_connection = call "redis_connection_errors_total" inc ("llen" ∷ [])
collector_call depth = call "redis_queue_depth" set []
