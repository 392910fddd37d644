-- ===== src/Repository/Evolution/Interface.antt =====
-- The methods of the repositories as one interface: what each keeps.
use go_tempo.Base.{All, ℕ, List, String}
use go_tempo.Domain.{Task, Json, WorkflowExecution, WorkflowStatus}
use go_tempo.External.{External}
use go_tempo.World.{Preserves, OnTables}
use go_tempo.Repository.Tasks.{
  create_execution, find_task_by_id, claim_task, mark_completed, mark_failed, mark_skipped,
  increment_retry_count,
}
use go_tempo.Repository.Dag.{
  decrement_and_get_ready_tasks, decrement_and_set_skip_hint, are_all_tasks_completed,
}
use go_tempo.Repository.Workflows.{update_status}
use go_tempo.Repository.Evolution.Rows.{retried-TaskProgress}
use go_tempo.Repository.Evolution.Closure.{RowSteps, progress_steps, ClosedUnder, Closed, IsFresh}
use go_tempo.Repository.Evolution.Actions.{
  claim_task-On, increment_retry_count-On, mark_completed-On, mark_failed-On, mark_skipped-On,
  find_task_by_id-On, decrement_and_get_ready_tasks-On, decrement_and_set_skip_hint-On,
  are_all_tasks_completed-On, update_status-On, create_execution-On,
}

-- A property of the tables that each method of the repositories keeps, but perhaps not
-- IncrementRetryCount.
pub record Methods {ℓ} (ext : External) (Q : List WorkflowExecution → List Task → Type ℓ)
    : Type ℓ where
  pub creates :
      (e : WorkflowExecution) (ts : List Task)
      → All IsFresh ts
      → Preserves (OnTables Q) (create_execution ext e ts)
  pub finds : (id : ℕ) → Preserves (OnTables Q) (find_task_by_id id)
  pub claims :
      (id : ℕ) (worker : String) (version : ℕ)
      → Preserves (OnTables Q) (claim_task id worker version)
  pub completes : (id : ℕ) (output : Json) → Preserves (OnTables Q) (mark_completed ext id output)
  pub fails : (id : ℕ) (message : String) → Preserves (OnTables Q) (mark_failed ext id message)
  pub skips : (id : ℕ) → Preserves (OnTables Q) (mark_skipped ext id)
  pub decrements :
      (execution_id : ℕ) (ref_id : String)
      → Preserves (OnTables Q) (decrement_and_get_ready_tasks ext execution_id ref_id)
  pub taints :
      (execution_id : ℕ) (ref_id : String)
      → Preserves (OnTables Q) (decrement_and_set_skip_hint ext execution_id ref_id)
  pub counts : (execution_id : ℕ) → Preserves (OnTables Q) (are_all_tasks_completed execution_id)
  pub updates :
      (execution_id : ℕ) (status : WorkflowStatus)
      → Preserves (OnTables Q) (update_status execution_id status)

-- All of them.
pub record Statements {ℓ} (ext : External) (Q : List WorkflowExecution → List Task → Type ℓ)
    : Type ℓ where
  pub methods : Methods ext Q
  pub open methods use *
  pub retries : (id version : ℕ) → Preserves (OnTables Q) (increment_retry_count id version)

pub methods_under {ℓ} :
    (ext : External) {Q : List WorkflowExecution → List Task → Type ℓ} {S : Task → Task → Type 0}
    → RowSteps S
    → ClosedUnder ext S Q
    → Methods ext Q
methods_under ext row closed = record {
  creates = create_execution-On ext row closed;
  finds = find_task_by_id-On ext row closed;
  claims = claim_task-On ext row closed;
  completes = mark_completed-On ext row closed;
  fails = mark_failed-On ext row closed;
  skips = mark_skipped-On ext row closed;
  decrements = decrement_and_get_ready_tasks-On ext row closed;
  taints = decrement_and_set_skip_hint-On ext row closed;
  counts = are_all_tasks_completed-On ext row closed;
  updates = update_status-On ext row closed;
}

-- The methods are made of those statements.
pub statements {ℓ} :
    (ext : External) {Q : List WorkflowExecution → List Task → Type ℓ}
    → Closed ext Q
    → Statements ext Q
statements ext closed = record {
  methods = methods_under ext progress_steps closed;
  retries = increment_retry_count-On ext progress_steps closed retried-TaskProgress;
}
