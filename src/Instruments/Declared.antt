-- ===== src/Instruments/Declared.antt =====
-- The calls of the metrics against their declarations.
use go_tempo.Base.{ℕ, ◌≡◌, refl, Bool, true, false, String, some, str_eq, length, first_where}
use go_tempo.Repository.Rows.{count_where}
use go_tempo.Instruments.{Kind, counter, gauge, histogram, Instrument, all_metrics}
use go_tempo.Instruments.Calls.{
  Call, Method, MiddlewareCall, WorkerCall, CoordinatorCall, TaskRepositoryCall,
  WorkflowRepositoryCall, QueueCall, EventBusCall, CollectorCall, inc, dec, set, observe,
  request_size, request_duration, response_size, requests, queue_wait, claim_failure, active,
  active_no_more, skipped, unknown_action, unknown_failed, ran, exhausted, failed, succeeded,
  retried, completed_event, terminated_event, resolution, unblocked, workflow_completed,
  skip_propagated, workflow_failed, task_query, task_query_error, lock_conflict, transaction_failed,
  transaction_done, workflow_query, workflow_query_error, push_error, push_connection, pushed,
  popped, pop_connection, publish_connection, subscribe_connection, published, received,
  idle_connections, used_connections, llen_connection, depth, middleware_call, submission_call,
  worker_call, coordinator_call, task_repository_call, workflow_repository_call, queue_call,
  event_bus_call, collector_call,
}

-- Every call that the code of the program makes of a metric.
pub data AnyCall : Type 0 where
  in_handler : AnyCall
  in_middleware : MiddlewareCall → AnyCall
  in_worker : WorkerCall → AnyCall
  in_coordinator : CoordinatorCall → AnyCall
  in_task_repository : TaskRepositoryCall → AnyCall
  in_workflow_repository : WorkflowRepositoryCall → AnyCall
  in_queue : QueueCall → AnyCall
  in_event_bus : EventBusCall → AnyCall
  in_collector : CollectorCall → AnyCall

unfoldable pub call_of : (itoa : ℕ → String) → AnyCall → Call
unfolding submission_call middleware_call worker_call coordinator_call task_repository_call
    workflow_repository_call queue_call event_bus_call collector_call
call_of itoa in_handler = submission_call
call_of itoa (in_middleware c) = middleware_call itoa c
call_of itoa (in_worker c) = worker_call itoa c
call_of itoa (in_coordinator c) = coordinator_call c
call_of itoa (in_task_repository c) = task_repository_call c
call_of itoa (in_workflow_repository c) = workflow_repository_call c
call_of itoa (in_queue c) = queue_call c
call_of itoa (in_event_bus c) = event_bus_call c
call_of itoa (in_collector c) = collector_call c

-- The methods of each kind.
abbrev pub has_method : Kind → Method → Bool
has_method counter inc = true
has_method gauge inc = true
has_method gauge dec = true
has_method gauge set = true
has_method (histogram buckets) observe = true
has_method _ _ = false

abbrev pub is_called : String → Instrument → Bool
is_called name i = str_eq i.name name

-- There is exactly one metric with the name, its kind has the method, and it has as many labels as the
-- call gives values.
abbrev pub IsDeclared : Call → Type 0
IsDeclared c =
    (i : Instrument) × (first_where (is_called c.name) all_metrics ≡ some i)
    × (count_where (is_called c.name) all_metrics ≡ 1)
    × (has_method i.kind c.method ≡ true)
    × (length i.labels ≡ length c.values)

-- Every call that the program makes of a metric, of the histograms of durations too, is one that its
-- declaration allows: one metric has the name, its kind has the method, and the call gives a value
-- for each of its labels.
pub call_of-IsDeclared : (itoa : ℕ → String) (c : AnyCall) → IsDeclared (call_of itoa c)
unfolding all_metrics call_of count_where
call_of-IsDeclared itoa in_handler = (_, refl, refl, refl, refl)
call_of-IsDeclared itoa (in_middleware (request_size method path)) = (_, refl, refl, refl, refl)
call_of-IsDeclared itoa (in_middleware (requests method path status)) = (_, refl, refl, refl, refl)
call_of-IsDeclared itoa (in_middleware (request_duration method path)) = (_, refl, refl, refl, refl)
call_of-IsDeclared itoa (in_middleware (response_size method path)) = (_, refl, refl, refl, refl)
call_of-IsDeclared itoa (in_worker queue_wait) = (_, refl, refl, refl, refl)
call_of-IsDeclared itoa (in_worker (active worker_id)) = (_, refl, refl, refl, refl)
call_of-IsDeclared itoa (in_worker (active_no_more worker_id)) = (_, refl, refl, refl, refl)
call_of-IsDeclared itoa (in_worker (skipped action)) = (_, refl, refl, refl, refl)
call_of-IsDeclared itoa (in_worker claim_failure) = (_, refl, refl, refl, refl)
call_of-IsDeclared itoa (in_worker (unknown_action action)) = (_, refl, refl, refl, refl)
call_of-IsDeclared itoa (in_worker (unknown_failed action)) = (_, refl, refl, refl, refl)
call_of-IsDeclared itoa (in_worker (ran action)) = (_, refl, refl, refl, refl)
call_of-IsDeclared itoa (in_worker (retried action retry_count)) = (_, refl, refl, refl, refl)
call_of-IsDeclared itoa (in_worker (exhausted action)) = (_, refl, refl, refl, refl)
call_of-IsDeclared itoa (in_worker (failed action)) = (_, refl, refl, refl, refl)
call_of-IsDeclared itoa (in_worker (succeeded action)) = (_, refl, refl, refl, refl)
call_of-IsDeclared itoa (in_coordinator completed_event) = (_, refl, refl, refl, refl)
call_of-IsDeclared itoa (in_coordinator terminated_event) = (_, refl, refl, refl, refl)
call_of-IsDeclared itoa (in_coordinator resolution) = (_, refl, refl, refl, refl)
call_of-IsDeclared itoa (in_coordinator unblocked) = (_, refl, refl, refl, refl)
call_of-IsDeclared itoa (in_coordinator workflow_completed) = (_, refl, refl, refl, refl)
call_of-IsDeclared itoa (in_coordinator skip_propagated) = (_, refl, refl, refl, refl)
call_of-IsDeclared itoa (in_coordinator workflow_failed) = (_, refl, refl, refl, refl)
call_of-IsDeclared itoa (in_task_repository (task_query operation)) = (_, refl, refl, refl, refl)
call_of-IsDeclared itoa (in_task_repository (task_query_error operation)) =
    (_, refl, refl, refl, refl)
call_of-IsDeclared itoa (in_task_repository (lock_conflict operation)) = (_, refl, refl, refl, refl)
call_of-IsDeclared itoa (in_task_repository transaction_failed) = (_, refl, refl, refl, refl)
call_of-IsDeclared itoa (in_task_repository transaction_done) = (_, refl, refl, refl, refl)
call_of-IsDeclared itoa (in_workflow_repository (workflow_query operation)) =
    (_, refl, refl, refl, refl)
call_of-IsDeclared itoa (in_workflow_repository (workflow_query_error operation)) =
    (_, refl, refl, refl, refl)
call_of-IsDeclared itoa (in_queue push_error) = (_, refl, refl, refl, refl)
call_of-IsDeclared itoa (in_queue push_connection) = (_, refl, refl, refl, refl)
call_of-IsDeclared itoa (in_queue pushed) = (_, refl, refl, refl, refl)
call_of-IsDeclared itoa (in_queue popped) = (_, refl, refl, refl, refl)
call_of-IsDeclared itoa (in_queue pop_connection) = (_, refl, refl, refl, refl)
call_of-IsDeclared itoa (in_event_bus publish_connection) = (_, refl, refl, refl, refl)
call_of-IsDeclared itoa (in_event_bus (published channel)) = (_, refl, refl, refl, refl)
call_of-IsDeclared itoa (in_event_bus (received channel)) = (_, refl, refl, refl, refl)
call_of-IsDeclared itoa (in_event_bus subscribe_connection) = (_, refl, refl, refl, refl)
call_of-IsDeclared itoa (in_collector idle_connections) = (_, refl, refl, refl, refl)
call_of-IsDeclared itoa (in_collector used_connections) = (_, refl, refl, refl, refl)
call_of-IsDeclared itoa (in_collector llen_connection) = (_, refl, refl, refl, refl)
call_of-IsDeclared itoa (in_collector depth) = (_, refl, refl, refl, refl)
