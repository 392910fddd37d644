-- ===== src/Mapper.antt =====
-- internal/api/dto/request.go and internal/mapper/workflow_mapper.go. The ids that uuid.New returns
-- are an argument, `new_id`: the execution takes the first, and the tasks the next ones in order.
use go_tempo.Base.{
  ℕ, ◌+◌, List, [], ◌∷◌, String, Option, none, some, pos, ◌==◌, if◌then◌else◌, length,
}
use go_tempo.Domain.{
  Task, TaskStatus, Json, null_value, strings, WorkflowExecution, new_task, new_workflow,
}

-- `dependencies` is a slice, with `none` for nil. `input` is a map that was read from JSON, and is
-- given as the JSON value that json.Marshal writes for it.
pub record TaskDto : Type 0 where
  pub ref_id : String
  pub action : String
  pub dependencies : Option (List String)
  pub input : Json

pub record CreateWorkflowRequest : Type 0 where
  pub type : String
  pub user_id : ℕ
  pub tasks : List TaskDto

-- The elements of a slice; nil has none.
abbrev pub elements : Option (List String) → List String
elements none = []
elements (some l) = l

-- json.Marshal of a slice of strings.
abbrev pub marshal : Option (List String) → Json
marshal none = null_value
marshal (some l) = strings l

unfoldable pub to_task : (id workflow_id : ℕ) → TaskDto → Task
unfolding new_task
to_task id workflow_id dto =
    let task = new_task id workflow_id dto.ref_id dto.action in
    let in_degree = length (elements dto.dependencies) in
    record task {
      dependencies = marshal dto.dependencies;
      in_degree = pos in_degree;
      input = dto.input;
      status = if in_degree == 0 then TaskStatus.queued else TaskStatus.pending;
    }

module _ (new_id : ℕ → ℕ) where
  -- The loop over the tasks, which takes its ids from the `next` on.
  unfoldable pub to_tasks : (workflow_id next : ℕ) → List TaskDto → List Task
  unfolding to_task
  to_tasks workflow_id next [] = []
  to_tasks workflow_id next (dto ∷ dtos) =
      to_task (new_id next) workflow_id dto ∷ to_tasks workflow_id (next + 1) dtos

  unfoldable pub to_workflow_execution : CreateWorkflowRequest → WorkflowExecution × List Task
  unfolding new_workflow to_tasks
  to_workflow_execution req =
      let execution = new_workflow (new_id 0) req.user_id req.type in
      (execution, to_tasks execution.id 1 req.tasks)
