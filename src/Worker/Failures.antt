-- ===== src/Worker/Failures.antt =====
-- markTaskFailedPermanently and executeTaskAction of internal/worker/worker.go.
use go_tempo.Base.{
  ℕ, ◌≡◌, refl, ◌⊎◌, inl, inr, true, false, String, List, [], ◌∷◌, ◌++◌, ◌==◌, All, arith,
  Bool-cases, if◌then◌else◌,
}
use go_tempo.Domain.{
  raw, Task, TaskStatus, TaskTerminationType, WorkflowExecution, WorkflowStatus,
  new_task_terminated_event, same_status,
}
use go_tempo.External.{External, error_output}
use go_tempo.World.{World, Error, ok, actions, calm-elim}
use go_tempo.Repository.Rows.{update_where}
use go_tempo.Repository.Tasks.{mark_failed, update_tasks, json_ok}
use go_tempo.Repository.Workflows.{may_update, update_status}
use go_tempo.Redis.EventBus.{publish_task_terminated}
use go_tempo.Worker.Process.{Worker, error_text, mark_task_failed_permanently}

-- Every row with the id is FAILED, and says why.
abbrev pub IsFailedTask : (id : ℕ) (message : String) → List Task → Type 0
IsFailedTask id message =
    All (λ t. t.id ≡ id → (t.status ≡ TaskStatus.failed) × (t.last_error ≡ message))

abbrev pub IsFailedExecution : (id : ℕ) → List WorkflowExecution → Type 0
IsFailedExecution id = All (λ e. e.id ≡ id → e.status ≡ WorkflowStatus.failed)

same-failed :
    (s : WorkflowStatus) → same_status s WorkflowStatus.failed ≡ true → s ≡ WorkflowStatus.failed
same-failed WorkflowStatus.failed h = refl
same-failed WorkflowStatus.running h = cc
same-failed WorkflowStatus.completed h = cc
same-failed WorkflowStatus.paused h = cc

failed_row :
    (id : ℕ) (e : WorkflowExecution)
    → (if may_update id WorkflowStatus.failed e
        then record e { status = WorkflowStatus.failed }
        else e).id
      ≡ id
    → (if may_update id WorkflowStatus.failed e
        then record e { status = WorkflowStatus.failed }
        else e).status
      ≡ WorkflowStatus.failed
unfolding may_update
failed_row id e h = ground (arith, h, same-failed e.status)

pub fail_executions :
    (id : ℕ) (es : List WorkflowExecution)
    → IsFailedExecution id (
        update_where
          (may_update id WorkflowStatus.failed)
          (λ e. record e { status = WorkflowStatus.failed })
          es)
unfolding update_where
fail_executions id [] = tt
fail_executions id (e ∷ es) = (failed_row id e, fail_executions id es)

abbrev pub failed_as : String → Task → Task
failed_as message t = record t {
  status = TaskStatus.failed;
  last_error = message;
  output = raw (error_output message);
}

fail_tasks :
    (id : ℕ) (message : String) (ts : List Task)
    → IsFailedTask id message (update_where (λ t. t.id == id) (failed_as message) ts)
unfolding update_where
fail_tasks id message [] = tt
fail_tasks id message (t ∷ ts) =
    (λ h. (ground (arith, h), ground (arith, h)), fail_tasks id message ts)

-- The end of a task that is not retried: the workflow is FAILED and the termination published,
-- whatever becomes of the row, which is FAILED if its error gives valid JSON, and else unchanged.
abbrev pub IsFailedFor :
    (ext : External) (worker : Worker) (task : Task) (e : Error) → World → Type 0
IsFailedFor ext worker task e w =
    ((mark_task_failed_permanently ext worker task e w).0 ≡ ok tt)
    × IsFailedExecution task.execution_id
        (mark_task_failed_permanently ext worker task e w).1.executions
    × ((mark_task_failed_permanently ext worker task e w).1.terminated
        ≡ w.terminated
          ++ new_task_terminated_event task.execution_id task.id task.ref_id
              TaskTerminationType.failed (error_text e)
            ∷ [])
    × ((ext.jsonb_valid (error_output (error_text e)) ≡ true)
          × IsFailedTask task.id (error_text e)
              (mark_task_failed_permanently ext worker task e w).1.tasks
        ⊎ (ext.jsonb_valid (error_output (error_text e)) ≡ false)
          × ((mark_task_failed_permanently ext worker task e w).1.tasks ≡ w.tasks))

calm-IsFailedFor :
    (ext : External) (worker : Worker) (task : Task) (e : Error) (w : World)
    → IsFailedFor ext worker task e (record w { outages = [] })
unfolding mark_task_failed_permanently mark_failed update_tasks json_ok update_status
    publish_task_terminated actions
calm-IsFailedFor ext worker task e w =
    elim (Bool-cases (ext.jsonb_valid (error_output (error_text e)))) [
      | inl valid ↦ rw valid (
        refl,
        fail_executions task.execution_id w.executions,
        refl,
        inl (refl, fail_tasks task.id (error_text e) w.tasks),
      )
      | inr invalid ↦
          rw invalid (refl, fail_executions task.execution_id w.executions, refl, inr (refl, refl))
    ]

-- With services that answer, a task that is out of retries leaves its workflow FAILED and its
-- termination published. Its row becomes FAILED, with the error's text, if that text makes a valid
-- JSON value as it stands between quotes; and if not, no row changes.
pub mark_task_failed_permanently_lem :
    (ext : External) (worker : Worker) (task : Task) (e : Error) (w : World)
    → w.outages ≡ []
    → IsFailedFor ext worker task e w
mark_task_failed_permanently_lem ext worker task e =
    calm-elim (IsFailedFor ext worker task e) (calm-IsFailedFor ext worker task e)
