-- ===== src/Service.antt =====
-- internal/service/workflow_service.go, and the HTTP handler above it, internal/api/handler/handler.go.
pub mod Submission
use go_tempo.Base.{ℕ, List, [], ◌∷◌, Option, none, some, is_zero, select}
use go_tempo.Domain.{Task, WorkflowExecution}
use go_tempo.External.{External}
use go_tempo.World.{M, Error, Result, ok, err, pure, inc, ◌>>=◌, ◌>>◌, attempt, workflows_submitted}
use go_tempo.Repository.Tasks.{create_execution}
use go_tempo.Redis.Queue.{RedisQueue, main_queue, push}
use go_tempo.Mapper.{CreateWorkflowRequest, to_workflow_execution}

unfoldable pub get_root_tasks : List Task → List Task
get_root_tasks tasks = select (λ t. is_zero t.in_degree) tasks

module _ (ext : External) where
  -- `queue` is the one that the service was made with.
  unfoldable pub enqueue_root_tasks : RedisQueue → List Task → M (Unit {0})
  enqueue_root_tasks queue [] = pure tt
  enqueue_root_tasks queue (t ∷ ts) =
      push queue (ext.uuid_string t.id) >> enqueue_root_tasks queue ts

  unfoldable pub submit_workflow : RedisQueue → WorkflowExecution → List Task → M ℕ
  submit_workflow queue execution tasks = do
    create_execution ext execution tasks
    enqueue_root_tasks queue (get_root_tasks tasks)
    pure execution.id

-- What the handler answers: 201 with the id, or 500 with the text of an error.
pub data Response : Type 0 where
  status_created : (execution_id : ℕ) → Response
  invalid_request : Response
  internal_error : Error → Response

abbrev pub answer : Result ℕ → M Response
answer (err e) = pure (internal_error e)
answer (ok id) = do inc (workflows_submitted "default"); pure (status_created id)

-- `request` is what ShouldBindJSON reads from the body, or `none` if it refuses it.
unfoldable pub handle_submit :
    External → (new_id : ℕ → ℕ) → Option CreateWorkflowRequest → M Response
handle_submit ext new_id none = pure invalid_request
handle_submit ext new_id (some req) = do
  let (execution, tasks) = to_workflow_execution new_id req
  result ← attempt (submit_workflow ext main_queue execution tasks)
  answer result
