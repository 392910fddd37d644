-- ===== src/Domain/Workflows.antt =====
-- internal/domain/workflow.go
use go_tempo.Base.{ℕ, Bool, true, false, ◌||◌, String}

pub data WorkflowStatus : Type 0 where
  running completed failed paused : WorkflowStatus

-- The field Tasks is a relation for gorm that no code of the program reads or sets.
pub record WorkflowExecution : Type 0 where
  pub id : ℕ
  pub user_id : ℕ
  pub workflow_type : String
  pub status : WorkflowStatus

-- `id` is what uuid.New returns.
unfoldable pub new_workflow : (id user_id : ℕ) (workflow_type : String) → WorkflowExecution
new_workflow id user_id workflow_type = record {
  id = id;
  user_id = user_id;
  workflow_type = workflow_type;
  status = running;
}

abbrev pub same_status : WorkflowStatus → WorkflowStatus → Bool
same_status running running = true
same_status completed completed = true
same_status failed failed = true
same_status paused paused = true
same_status _ _ = false

unfoldable pub is_finished : WorkflowExecution → Bool
is_finished w = same_status w.status completed || same_status w.status failed
