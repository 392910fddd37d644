-- ===== src/Coordinator/Finish.antt =====
-- checkIfWorkflowFinished of internal/coordinator/coordinator.go.
use go_tempo.Base.{
  ℕ, ◌≡◌, refl, ◌⊎◌, inl, inr, true, List, [], ◌∷◌, map, All, arith, Bool-cases, ◌==◌, ==_iff,
  if◌then◌else◌,
}
use go_tempo.Domain.{Task, TaskStatus, WorkflowExecution, WorkflowStatus, is_completed, is_finished}
use go_tempo.World.{World, ok, actions, calm-elim}
use go_tempo.Repository.Rows.{update_where, count_where}
use go_tempo.Repository.Dag.{is_unfinished, are_all_tasks_completed}
use go_tempo.Repository.Workflows.{may_update, update_status}
use go_tempo.Coordinator.{check_if_workflow_finished}

-- Every task of the execution is COMPLETED.
abbrev pub IsAllCompleted : (execution_id : ℕ) → List Task → Type 0
IsAllCompleted execution_id =
    All (λ t. t.execution_id ≡ execution_id → t.status ≡ TaskStatus.completed)

-- Every row of the execution has a status that ends it.
abbrev pub IsAllFinished : (execution_id : ℕ) → List WorkflowExecution → Type 0
IsAllFinished execution_id = All (λ e. e.id ≡ execution_id → is_finished e ≡ true)

pub is_completed-eq : (s : TaskStatus) → is_completed s ≡ true → s ≡ TaskStatus.completed
unfolding is_completed
is_completed-eq TaskStatus.completed h = refl
is_completed-eq TaskStatus.pending h = cc
is_completed-eq TaskStatus.queued h = cc
is_completed-eq TaskStatus.running h = cc
is_completed-eq TaskStatus.failed h = cc
is_completed-eq TaskStatus.skipped h = cc

eq-is_completed : (s : TaskStatus) → s ≡ TaskStatus.completed → is_completed s ≡ true
unfolding is_completed
eq-is_completed s h = rw h

module _ (id : ℕ) where
  pub none_unfinished :
      (ts : List Task) → IsAllCompleted id ts → count_where (is_unfinished id) ts ≡ 0
  unfolding count_where
  none_unfinished [] h = refl
  none_unfinished (t ∷ ts) h = elim (Bool-cases (t.execution_id == id)) [
    | inl mine ↦
        rw (mine, eq-is_completed t.status (h.0 ((==_iff t.execution_id id).0 mine)))
          (omega (arith, none_unfinished ts h.1))
    | inr other ↦ rw other (omega (arith, none_unfinished ts h.1))
  ]

  pub all_completed :
      (ts : List Task) → count_where (is_unfinished id) ts ≡ 0 → IsAllCompleted id ts
  unfolding count_where
  all_completed [] h = tt
  all_completed (t ∷ ts) h =
      (λ e. is_completed-eq t.status (ground (arith, e, h)), all_completed ts (ground (arith, h)))

  completed_row :
      (e : WorkflowExecution)
      → (if may_update id WorkflowStatus.completed e
          then record e { status = WorkflowStatus.completed }
          else e).id
        ≡ id
      → is_finished (
          if may_update id WorkflowStatus.completed e
          then record e { status = WorkflowStatus.completed }
          else e)
        ≡ true
  unfolding may_update is_finished
  completed_row e h = ground (arith, h)

  pub finish_all :
      (es : List WorkflowExecution)
      → IsAllFinished id (
          update_where
            (may_update id WorkflowStatus.completed)
            (λ e. record e { status = WorkflowStatus.completed })
            es)
  unfolding update_where
  finish_all [] = tt
  finish_all (e ∷ es) = (completed_row e, finish_all es)

-- FAILED stays, and anything else becomes COMPLETED.
abbrev pub ended_status : WorkflowStatus → WorkflowStatus
ended_status WorkflowStatus.failed = WorkflowStatus.failed
ended_status _ = WorkflowStatus.completed

-- The row of an execution whose tasks are all COMPLETED.
abbrev pub ended_row : (id : ℕ) → WorkflowExecution → WorkflowExecution
ended_row id e = if e.id == id then record e { status = ended_status e.status } else e

updated-ended_row :
    (id : ℕ) (e : WorkflowExecution) (s : WorkflowStatus)
    → (if may_update id WorkflowStatus.completed (record e { status = s })
        then record e { status = WorkflowStatus.completed }
        else record e { status = s })
      ≡ ended_row id (record e { status = s })
unfolding may_update
updated-ended_row id e WorkflowStatus.running = ground arith
updated-ended_row id e WorkflowStatus.completed = ground arith
updated-ended_row id e WorkflowStatus.failed = ground arith
updated-ended_row id e WorkflowStatus.paused = ground arith

updated-ended_rows :
    (id : ℕ) (es : List WorkflowExecution)
    → update_where
        (may_update id WorkflowStatus.completed)
        (λ e. record e { status = WorkflowStatus.completed })
        es
      ≡ map (ended_row id) es
unfolding update_where
updated-ended_rows id [] = refl
updated-ended_rows id (e ∷ es) = rw (updated-ended_row id e e.status, updated-ended_rows id es) refl

-- If all tasks of the execution are COMPLETED, its row becomes COMPLETED, or stays FAILED, and no other
-- row changes; if one is not, no row changes. The tasks do not change.
abbrev pub IsChecked : (id : ℕ) → World → Type 0
IsChecked id w =
    ((check_if_workflow_finished id w).0 ≡ ok tt)
    × ((check_if_workflow_finished id w).1.tasks ≡ w.tasks)
    × (IsAllCompleted id w.tasks
          × ((check_if_workflow_finished id w).1.executions ≡ map (ended_row id) w.executions)
        ⊎ ¬ (IsAllCompleted id w.tasks)
          × ((check_if_workflow_finished id w).1.executions ≡ w.executions))

calm-IsChecked : (id : ℕ) (w : World) → IsChecked id (record w { outages = [] })
unfolding check_if_workflow_finished are_all_tasks_completed update_status actions
calm-IsChecked id w = elim (Bool-cases (count_where (is_unfinished id) w.tasks == 0)) [
  | inl done ↦ rw done (
    refl,
    refl,
    inl (all_completed id w.tasks (ground (arith, done)), updated-ended_rows id w.executions),
  )
  | inr left ↦
      rw left (
        refl,
        refl,
        inr (λ all. absurd (ground (arith, left, none_unfinished id w.tasks all)), refl),
      )
]

-- With a database that answers, the check of an execution makes it COMPLETED, or leaves it FAILED, if
-- all of its tasks are COMPLETED, and changes no other execution; it changes no execution if one of
-- the tasks is not COMPLETED, and never a task.
pub check_if_workflow_finished_lem : (id : ℕ) (w : World) → w.outages ≡ [] → IsChecked id w
check_if_workflow_finished_lem id = calm-elim (IsChecked id) (calm-IsChecked id)
