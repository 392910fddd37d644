-- ===== src/Repository/Waiting.antt =====
-- The methods of the repositories, and what is published, leave the lists of Redis alone.
use go_tempo.Base.{[], ◌∷◌, ℕ, Bool, List, String}
use go_tempo.Domain.{
  Task, Json, WorkflowExecution, WorkflowStatus, TaskCompletedEvent, TaskTerminatedEvent,
}
use go_tempo.External.{External}
use go_tempo.World.{
  World, M, Result, ok, err, database_error, service, Preserves, OnQueues, queues_rules, ◌>>=◌,
}
use go_tempo.Repository.Tasks.{
  update_tasks, transaction, rolled_back, insert_execution, insert_tasks, add_fitting,
  create_execution, find_task_by_id, claim_task, mark_completed, mark_failed, mark_skipped,
  increment_retry_count,
}
use go_tempo.Repository.Dag.{
  decrement_row, taint_row, decrement_query, decrement_and_get_ready_tasks,
  decrement_and_set_skip_hint, are_all_tasks_completed,
}
use go_tempo.Repository.Workflows.{update_status}
use go_tempo.Redis.EventBus.{
  publish_task_completed, publish_task_terminated, receive_completed, receive_terminated,
  forward_completed, forward_terminated,
}

module _ {ℓ} (ext : External) {Q : List String → List String → Type ℓ} where
  update_tasks-Waits :
      (valid : Bool) (p : Task → Bool) (f : Task → Task)
      → Preserves (OnQueues Q) (update_tasks valid p f)
  unfolding update_tasks
  update_tasks-Waits valid p f = search queues_rules depth 9

  pub claim_task-Waits :
      (id : ℕ) (worker : String) (version : ℕ)
      → Preserves (OnQueues Q) (claim_task id worker version)
  unfolding claim_task
  claim_task-Waits id worker version = search (queues_rules, update_tasks-Waits)

  pub increment_retry_count-Waits :
      (id version : ℕ) → Preserves (OnQueues Q) (increment_retry_count id version)
  unfolding increment_retry_count
  increment_retry_count-Waits id version = search (queues_rules, update_tasks-Waits)

  pub mark_completed-Waits :
      (id : ℕ) (output : Json) → Preserves (OnQueues Q) (mark_completed ext id output)
  unfolding mark_completed
  mark_completed-Waits id output = search (queues_rules, update_tasks-Waits)

  pub mark_failed-Waits :
      (id : ℕ) (message : String) → Preserves (OnQueues Q) (mark_failed ext id message)
  unfolding mark_failed
  mark_failed-Waits id message = search (queues_rules, update_tasks-Waits)

  pub mark_skipped-Waits : (id : ℕ) → Preserves (OnQueues Q) (mark_skipped ext id)
  unfolding mark_skipped
  mark_skipped-Waits id = search (queues_rules, update_tasks-Waits)

  pub find_task_by_id-Waits : (id : ℕ) → Preserves (OnQueues Q) (find_task_by_id id)
  unfolding find_task_by_id
  find_task_by_id-Waits id = search queues_rules

  pub update_status-Waits :
      (id : ℕ) (status : WorkflowStatus) → Preserves (OnQueues Q) (update_status id status)
  unfolding update_status
  update_status-Waits id status = search queues_rules depth 8

  pub are_all_tasks_completed-Waits : (id : ℕ) → Preserves (OnQueues Q) (are_all_tasks_completed id)
  unfolding are_all_tasks_completed
  are_all_tasks_completed-Waits id = search queues_rules

  pub publish_task_completed-Waits :
      (e : TaskCompletedEvent) → Preserves (OnQueues Q) (publish_task_completed e)
  unfolding publish_task_completed
  publish_task_completed-Waits e = search queues_rules

  pub publish_task_terminated-Waits :
      (e : TaskTerminatedEvent) → Preserves (OnQueues Q) (publish_task_terminated e)
  unfolding publish_task_terminated
  publish_task_terminated-Waits e = search queues_rules

  rolled_back-Waits :
      {A : Type 0} (w w' : World) (r : Result A)
      → OnQueues Q w'
      → OnQueues Q (rolled_back w (r, w')).1
  rolled_back-Waits w w' (ok a) q = q
  rolled_back-Waits w w' (err e) q = record { waits = q.waits }

  transaction-Waits :
      (body : M Unit) → Preserves (OnQueues Q) body → Preserves (OnQueues Q) (transaction body)
  unfolding transaction
  transaction-Waits body p = record { keep = λ w q. rolled_back-Waits w _ _ (inner.keep w q) }
    where
      inner : Preserves (OnQueues Q) (body >>= λ _. service database_error)
      inner = search queues_rules

  insert_execution-Waits : (e : WorkflowExecution) → Preserves (OnQueues Q) (insert_execution ext e)
  unfolding insert_execution
  insert_execution-Waits e = search queues_rules depth 9

  insert_tasks-Waits : (ts : List Task) → Preserves (OnQueues Q) (insert_tasks ext ts)
  unfolding insert_tasks add_fitting
  insert_tasks-Waits ts = search queues_rules depth 9

  pub create_execution-Waits :
      (e : WorkflowExecution) (ts : List Task) → Preserves (OnQueues Q) (create_execution ext e ts)
  unfolding create_execution
  create_execution-Waits e ts =
      search (queues_rules, transaction-Waits, insert_execution-Waits, insert_tasks-Waits) depth 9

  pub decrement_query-Waits :
      (f : Task → Task) (operation : String) (execution_id : ℕ) (ref_id : String)
      → Preserves (OnQueues Q) (decrement_query ext f operation execution_id ref_id)
  unfolding decrement_query
  decrement_query-Waits f operation execution_id ref_id = search queues_rules depth 8

  pub decrement_and_get_ready_tasks-Waits :
      (execution_id : ℕ) (ref_id : String)
      → Preserves (OnQueues Q) (decrement_and_get_ready_tasks ext execution_id ref_id)
  unfolding decrement_and_get_ready_tasks
  decrement_and_get_ready_tasks-Waits = decrement_query-Waits decrement_row _

  pub decrement_and_set_skip_hint-Waits :
      (execution_id : ℕ) (ref_id : String)
      → Preserves (OnQueues Q) (decrement_and_set_skip_hint ext execution_id ref_id)
  unfolding decrement_and_set_skip_hint
  decrement_and_set_skip_hint-Waits = decrement_query-Waits taint_row _

  forward_completed-Waits :
      (l : List TaskCompletedEvent) → Preserves (OnQueues Q) (forward_completed l)
  unfolding forward_completed
  forward_completed-Waits [] = search queues_rules
  forward_completed-Waits (e ∷ l) = search queues_rules

  pub receive_completed-Waits : Preserves (OnQueues Q) receive_completed
  unfolding receive_completed
  receive_completed-Waits = search (queues_rules, forward_completed-Waits)

  forward_terminated-Waits :
      (l : List TaskTerminatedEvent) → Preserves (OnQueues Q) (forward_terminated l)
  unfolding forward_terminated
  forward_terminated-Waits [] = search queues_rules
  forward_terminated-Waits (e ∷ l) = search queues_rules

  pub receive_terminated-Waits : Preserves (OnQueues Q) receive_terminated
  unfolding receive_terminated
  receive_terminated-Waits = search (queues_rules, forward_terminated-Waits)
