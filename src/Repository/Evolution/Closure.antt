-- ===== src/Repository/Evolution/Closure.antt =====
-- What a property of the tables must bear: the steps of the statements.
use go_tempo.Base.{All, ℕ, ◌+◌, some, ◌≡◌, Bool, true, List, [], ◌∷◌, ◌++◌, String, map}
use go_tempo.Domain.{Task, TaskStatus, Json, WorkflowExecution}
use go_tempo.External.{External}
use go_tempo.Repository.Rows.{update_where, fits, with_defaults, has_version}
use go_tempo.Repository.Tasks.{accepts_row}
use go_tempo.Repository.Dag.{decrement_row, taint_row}
use go_tempo.Repository.Evolution.Rules.{TaskProgress, ExecutionProgress}
use go_tempo.Repository.Evolution.Rows.{
  decrement_row-TaskProgress, taint_row-TaskProgress, claimed-TaskProgress, settled-TaskProgress,
}

-- A task as the mapper makes it.
abbrev pub IsFresh : Task → Type 0
IsFresh t = t.retry_count ≡ 0

-- The steps of a row that all UPDATEs but the one of IncrementRetryCount make.
pub record RowSteps (S : Task → Task → Type 0) : Type 0 where
  pub decrements_row : (t : Task) → S t (decrement_row t)
  pub taints_row : (t : Task) → S t (taint_row t)
  pub claims_row :
      (id : ℕ) (worker : String) (version : ℕ) (t : Task)
      → has_version id version t ≡ true
      → S t
          (record t { status = TaskStatus.running; worker_id = some worker; version = version + 1 })
  pub settles_row :
      (status : TaskStatus) (last_error : String) (output : Json) (t : Task)
      → S t (record t { status = status; last_error = last_error; output = output })

pub progress_steps : RowSteps TaskProgress
progress_steps = record {
  decrements_row = decrement_row-TaskProgress;
  taints_row = taint_row-TaskProgress;
  claims_row = claimed-TaskProgress;
  settles_row = settled-TaskProgress;
}

-- A property of the tables that every INSERT keeps, and every UPDATE that moves its rows by `S`.
pub record ClosedUnder {ℓ} (ext : External) (S : Task → Task → Type 0)
    (Q : List WorkflowExecution → List Task → Type ℓ) : Type ℓ where
  pub on_update :
      (p : Task → Bool) (f : Task → Task) (es : List WorkflowExecution) (ts : List Task)
      → ((t : Task) → p t ≡ true → S t (f t))
      → Q es ts
      → Q es (update_where p f ts)
  pub on_status :
      (p : WorkflowExecution → Bool) (f : WorkflowExecution → WorkflowExecution)
      (es : List WorkflowExecution) (ts : List Task)
      → ((e : WorkflowExecution) → p e ≡ true → ExecutionProgress e (f e))
      → Q es ts
      → Q (update_where p f es) ts
  pub on_execution :
      (e : WorkflowExecution) (es : List WorkflowExecution) (ts : List Task)
      → Q es ts
      → Q (es ++ e ∷ []) ts
  pub on_insert :
      (more : List Task) (es : List WorkflowExecution) (ts : List Task)
      → fits (accepts_row ext) ts more ≡ true
      → All IsFresh more
      → Q es ts
      → Q es (ts ++ map with_defaults more)

abbrev pub Closed {ℓ} : External → (List WorkflowExecution → List Task → Type ℓ) → Type ℓ
Closed ext Q = ClosedUnder ext TaskProgress Q
