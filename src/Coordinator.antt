-- ===== src/Coordinator.antt =====
-- internal/coordinator/coordinator.go
pub mod Finish
pub mod Unblock
use go_tempo.Base.{ℕ, List, [], ◌∷◌, Option, none, some, null, if◌then◌else◌}
use go_tempo.Domain.{TaskCompletedEvent, TaskTerminatedEvent, TaskTerminationType, WorkflowStatus}
use go_tempo.External.{External}
use go_tempo.World.{
  M, pure, inc, ◌>>=◌, ◌>>◌, ignore, coordinator_events_processed, coordinator_tasks_unblocked,
  coordinator_skip_propagations, coordinator_workflow_completions,
}
use go_tempo.Repository.Dag.{
  decrement_and_get_ready_tasks, decrement_and_set_skip_hint, are_all_tasks_completed,
}
use go_tempo.Repository.Workflows.{update_status}
use go_tempo.Redis.Queue.{main_queue, push}
use go_tempo.Redis.EventBus.{receive_completed, receive_terminated}

-- A loop `for range ids` with the same statements in each round.
unfoldable pub for_each : List ℕ → M (Unit {0}) → M (Unit {0})
for_each [] body = pure tt
for_each (id ∷ ids) body = body >> for_each ids body

unfoldable pub check_if_workflow_finished : (execution_id : ℕ) → M (Unit {0})
check_if_workflow_finished execution_id = do
  all_completed ← are_all_tasks_completed execution_id
  if all_completed
      then (do
        update_status execution_id WorkflowStatus.completed
        inc (coordinator_workflow_completions "completed"))
      else pure tt

module _ (ext : External) where
  -- A push that fails is only logged.
  unfoldable pub push_ready : List ℕ → M (Unit {0})
  push_ready [] = pure tt
  push_ready (id ∷ ids) = ignore (push main_queue (ext.uuid_string id)) >> push_ready ids

  -- An error of the query is logged, and ends the handler.
  unfoldable pub handle_task_completed : TaskCompletedEvent → M (Unit {0})
  handle_task_completed event = do
    ready ← decrement_and_get_ready_tasks ext event.execution_id event.ref_id
    push_ready ready
    for_each ready (inc coordinator_tasks_unblocked)
    if null ready then check_if_workflow_finished event.execution_id else pure tt

  abbrev pub count_failed : TaskTerminationType → M (Unit {0})
  count_failed TaskTerminationType.failed = inc (coordinator_workflow_completions "failed")
  count_failed TaskTerminationType.skipped = pure tt

  unfoldable pub handle_task_terminated : TaskTerminatedEvent → M (Unit {0})
  handle_task_terminated event = do
    ready ← decrement_and_set_skip_hint ext event.execution_id event.ref_id
    push_ready ready
    for_each ready (inc coordinator_skip_propagations >> inc coordinator_tasks_unblocked)
    count_failed event.type

  -- The two cases of the `select` in Start, with the round of the bus that feeds them.
  abbrev pub on_completed : Option TaskCompletedEvent → M (Unit {0})
  on_completed none = pure tt
  on_completed (some event) =
      inc (coordinator_events_processed "completed") >> handle_task_completed event

  unfoldable pub coordinate_completed : M (Unit {0})
  coordinate_completed = receive_completed >>= on_completed

  abbrev pub on_terminated : Option TaskTerminatedEvent → M (Unit {0})
  on_terminated none = pure tt
  on_terminated (some event) =
      inc (coordinator_events_processed "terminated") >> handle_task_terminated event

  unfoldable pub coordinate_terminated : M (Unit {0})
  coordinate_terminated = receive_terminated >>= on_terminated
