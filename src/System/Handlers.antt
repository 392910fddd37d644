-- ===== src/System/Handlers.antt =====
-- What every statement of the repositories keeps, every handler of the program keeps.
use go_tempo.Base.{ℕ, ◌+◌, refl, All, List, [], ◌∷◌, String, Option, none, some}
use go_tempo.Domain.{
  new_task, Task, WorkflowExecution, TaskCompletedEvent, TaskTerminatedEvent, TaskTerminationType,
}
use go_tempo.External.{External}
use go_tempo.World.{M, Result, ok, err, Error, Preserves, OnTables, bind-Preserves}
use go_tempo.Repository.Evolution.{Methods, Statements, IsFresh}
use go_tempo.Redis.{redis_rules}
use go_tempo.Redis.Queue.{RedisQueue}
use go_tempo.Mapper.{CreateWorkflowRequest, TaskDto, to_task, to_tasks, to_workflow_execution}
use go_tempo.Service.{enqueue_root_tasks, submit_workflow, answer, handle_submit}
use go_tempo.Coordinator.{
  for_each, check_if_workflow_finished, push_ready, handle_task_completed, handle_task_terminated,
  coordinate_completed, coordinate_terminated, on_completed, on_terminated, count_failed,
}
use go_tempo.Worker.Registry.{Context, lookup}
use go_tempo.Worker.Process.{
  Worker, pop_and_fetch_task, handle_skipped_task, claim_task, reject_unknown_action,
  execute_task_action, retry_task, mark_task_failed_permanently, handle_task_failure,
  handle_task_success, run_claimed, process_next_task, parsed, claimed, returned, act, settle,
}

to_tasks-IsFresh :
    (new_id : ℕ → ℕ) (workflow_id next : ℕ) (dtos : List TaskDto)
    → All IsFresh (to_tasks new_id workflow_id next dtos)
unfolding to_tasks to_task new_task
to_tasks-IsFresh new_id workflow_id next [] = tt
to_tasks-IsFresh new_id workflow_id next (dto ∷ dtos) =
    (refl, to_tasks-IsFresh new_id workflow_id (next + 1) dtos)

pub to_workflow_execution-IsFresh :
    (new_id : ℕ → ℕ) (req : CreateWorkflowRequest)
    → All IsFresh (to_workflow_execution new_id req).1
unfolding to_workflow_execution
to_workflow_execution-IsFresh new_id req = to_tasks-IsFresh new_id _ 1 req.tasks

module _ {ℓ} (ext : External) {Q : List WorkflowExecution → List Task → Type ℓ} where
  pub enqueue_root_tasks-keeps :
      (q : RedisQueue) (ts : List Task) → Preserves (OnTables Q) (enqueue_root_tasks ext q ts)
  unfolding enqueue_root_tasks
  enqueue_root_tasks-keeps q [] = search redis_rules
  enqueue_root_tasks-keeps q (t ∷ ts) =
      bind-Preserves _ _ (search redis_rules) (λ _. enqueue_root_tasks-keeps q ts)

module _ {ℓ} (ext : External) {Q : List WorkflowExecution → List Task → Type ℓ}
    (keeps : Methods ext Q) where
  open keeps use {creates, decrements, taints, counts, updates}

  submit_workflow-keeps :
      (q : RedisQueue) (e : WorkflowExecution) (ts : List Task)
      → All IsFresh ts
      → Preserves (OnTables Q) (submit_workflow ext q e ts)
  unfolding submit_workflow
  submit_workflow-keeps q e ts fresh =
      search (redis_rules, creates, enqueue_root_tasks-keeps ext {Q = Q})

  answer-keeps : (r : Result ℕ) → Preserves (OnTables Q) (answer r)
  answer-keeps (ok id) = search redis_rules
  answer-keeps (err e) = search redis_rules

  pub handle_submit-keeps :
      (new_id : ℕ → ℕ) (request : Option CreateWorkflowRequest)
      → Preserves (OnTables Q) (handle_submit ext new_id request)
  unfolding handle_submit
  handle_submit-keeps new_id none = search redis_rules
  handle_submit-keeps new_id (some req) = search (
    redis_rules,
    submit_workflow-keeps _ _ _ (to_workflow_execution-IsFresh new_id req),
    answer-keeps,
  )

  pub for_each-keeps :
      (ids : List ℕ) (body : M Unit)
      → Preserves (OnTables Q) body
      → Preserves (OnTables Q) (for_each ids body)
  unfolding for_each
  for_each-keeps [] body h = search redis_rules
  for_each-keeps (id ∷ ids) body h = search (redis_rules, h, for_each-keeps ids body h)

  pub check_if_workflow_finished-keeps :
      (id : ℕ) → Preserves (OnTables Q) (check_if_workflow_finished id)
  unfolding check_if_workflow_finished
  check_if_workflow_finished-keeps id = search (redis_rules, counts, updates)

  push_ready-keeps : (ids : List ℕ) → Preserves (OnTables Q) (push_ready ext ids)
  unfolding push_ready
  push_ready-keeps [] = search redis_rules
  push_ready-keeps (id ∷ ids) = bind-Preserves _ _ (search redis_rules) (λ _. push_ready-keeps ids)

  handle_task_completed-keeps :
      (event : TaskCompletedEvent) → Preserves (OnTables Q) (handle_task_completed ext event)
  unfolding handle_task_completed
  handle_task_completed-keeps event =
      search
        (
          redis_rules, decrements, push_ready-keeps, for_each-keeps,
          check_if_workflow_finished-keeps,
        )
        depth 8

  pub count_failed-keeps : (t : TaskTerminationType) → Preserves (OnTables Q) (count_failed ext t)
  count_failed-keeps TaskTerminationType.failed = search redis_rules
  count_failed-keeps TaskTerminationType.skipped = search redis_rules

  handle_task_terminated-keeps :
      (event : TaskTerminatedEvent) → Preserves (OnTables Q) (handle_task_terminated ext event)
  unfolding handle_task_terminated
  handle_task_terminated-keeps event =
      search (redis_rules, taints, push_ready-keeps, for_each-keeps, count_failed-keeps) depth 8

  on_completed-keeps : (o : Option TaskCompletedEvent) → Preserves (OnTables Q) (on_completed ext o)
  on_completed-keeps none = search redis_rules
  on_completed-keeps (some e) = search (redis_rules, handle_task_completed-keeps)

  pub coordinate_completed-keeps : Preserves (OnTables Q) (coordinate_completed ext)
  unfolding coordinate_completed
  coordinate_completed-keeps = search (redis_rules, on_completed-keeps)

  on_terminated-keeps :
      (o : Option TaskTerminatedEvent) → Preserves (OnTables Q) (on_terminated ext o)
  on_terminated-keeps none = search redis_rules
  on_terminated-keeps (some e) = search (redis_rules, handle_task_terminated-keeps)

  pub coordinate_terminated-keeps : Preserves (OnTables Q) (coordinate_terminated ext)
  unfolding coordinate_terminated
  coordinate_terminated-keeps = search (redis_rules, on_terminated-keeps)

module _ {ℓ} (ext : External) (worker : Worker) {Q : List WorkflowExecution → List Task → Type ℓ}
    (keeps : Statements ext Q) where
  open keeps use {
    creates, finds, claims, completes, fails, skips, retries, decrements, taints, counts, updates,
  }

  parsed-keeps : (o : Option ℕ) → Preserves (OnTables Q) (parsed ext worker o)
  parsed-keeps none = search redis_rules
  parsed-keeps (some id) = search redis_rules

  pop_and_fetch_task-keeps : Preserves (OnTables Q) (pop_and_fetch_task ext worker)
  unfolding pop_and_fetch_task
  pop_and_fetch_task-keeps = search (redis_rules, parsed-keeps, finds)

  handle_skipped_task-keeps : (t : Task) → Preserves (OnTables Q) (handle_skipped_task ext worker t)
  unfolding handle_skipped_task
  handle_skipped_task-keeps t = search (redis_rules, skips)

  claimed-keeps : (t : Task) (r : Result Unit) → Preserves (OnTables Q) (claimed ext worker t r)
  claimed-keeps t (ok a) = search redis_rules
  claimed-keeps t (err e) = search redis_rules

  claim_task-keeps : (t : Task) → Preserves (OnTables Q) (claim_task ext worker t)
  unfolding claim_task
  claim_task-keeps t = search (redis_rules, claims, claimed-keeps)

  reject_unknown_action-keeps :
      (t : Task) → Preserves (OnTables Q) (reject_unknown_action ext worker t)
  unfolding reject_unknown_action
  reject_unknown_action-keeps t = search (redis_rules, fails, updates) depth 9

  returned-keeps : (r : Result String) → Preserves (OnTables Q) (returned ext worker r)
  returned-keeps (ok output) = search redis_rules
  returned-keeps (err e) = search redis_rules

  execute_task_action-keeps :
      (ctx : Context) (t : Task) → Preserves (OnTables Q) (execute_task_action ext worker ctx t)
  unfolding execute_task_action
  execute_task_action-keeps ctx t =
      elim (lookup worker.registry t.action)
        as (λ o. Preserves (OnTables Q) (act ext worker ctx t o)) [
          | none ↦ reject_unknown_action-keeps t
          | some handler ↦ returned-keeps (handler ctx t.input)
        ]

  retry_task-keeps : (t : Task) → Preserves (OnTables Q) (retry_task ext worker t)
  unfolding retry_task
  retry_task-keeps t = search (redis_rules, retries)

  mark_task_failed_permanently-keeps :
      (t : Task) (e : Error) → Preserves (OnTables Q) (mark_task_failed_permanently ext worker t e)
  unfolding mark_task_failed_permanently
  mark_task_failed_permanently-keeps t e = search (redis_rules, fails, updates) depth 9

  handle_task_failure-keeps :
      (t : Task) (e : Error) → Preserves (OnTables Q) (handle_task_failure ext worker t e)
  unfolding handle_task_failure
  handle_task_failure-keeps t e =
      search (redis_rules, retry_task-keeps, mark_task_failed_permanently-keeps)

  handle_task_success-keeps :
      (t : Task) (output : String)
      → Preserves (OnTables Q) (handle_task_success ext worker t output)
  unfolding handle_task_success
  handle_task_success-keeps t output = search (redis_rules, completes)

  settle-keeps : (t : Task) (r : Result String) → Preserves (OnTables Q) (settle ext worker t r)
  settle-keeps t (ok output) = handle_task_success-keeps t output
  settle-keeps t (err e) = handle_task_failure-keeps t e

  run_claimed-keeps :
      (ctx : Context) (o : Option Task) → Preserves (OnTables Q) (run_claimed ext worker ctx o)
  unfolding run_claimed
  run_claimed-keeps ctx none = search redis_rules
  run_claimed-keeps ctx (some t) =
      search (redis_rules, execute_task_action-keeps, settle-keeps) depth 9

  pub process_next_task-keeps :
      (ctx : Context) → Preserves (OnTables Q) (process_next_task ext worker ctx)
  unfolding process_next_task
  process_next_task-keeps ctx = search (
    redis_rules, pop_and_fetch_task-keeps, handle_skipped_task-keeps, claim_task-keeps,
    run_claimed-keeps,
  )
