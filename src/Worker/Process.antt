-- ===== src/Worker/Process.antt =====
-- internal/worker/worker.go: ProcessNextTask and the functions that it is made of.
use go_tempo.Base.{ℕ, ◌+◌, String, Option, none, some, if◌then◌else◌}
use go_tempo.Domain.{
  Task, raw, TaskTerminationType, WorkflowStatus, can_retry, new_task_terminated_event,
}
use go_tempo.External.{External}
use go_tempo.World.{
  M, Error, Result, ok, err, record_not_found, database_error, redis_error, invalid_uuid, blocked,
  failure, pure, throw, inc, ◌>>=◌, ◌>>◌, attempt, ignore, worker_tasks_processed,
  worker_active_inc, worker_active_dec, worker_claim_failures, worker_registry_errors,
  worker_retries, task_retry_exhaustion,
}
use go_tempo.Repository.Tasks
use go_tempo.Repository.Tasks.{
  find_task_by_id, mark_completed, mark_failed, mark_skipped, increment_retry_count,
}
use go_tempo.Repository.Workflows.{update_status}
use go_tempo.Redis.Queue.{RedisQueue, push, pop}
use go_tempo.Redis.EventBus.{publish_task_completed, publish_task_terminated}
use go_tempo.Worker.Registry.{Context, TaskHandler, TaskRegistry, lookup}

-- The repositories, the bus and the services behind them are the world that the actions work on.
pub record Worker : Type 0 where
  pub worker_id : String
  pub queue : RedisQueue
  pub retry_queue : RedisQueue
  pub registry : TaskRegistry

-- The method Error. The texts of the services' errors are their own.
abbrev pub error_text : Error → String
error_text record_not_found = "record not found"
error_text database_error = "database error"
error_text redis_error = "redis error"
error_text invalid_uuid = "invalid uuid"
error_text blocked = ""
error_text (failure text) = text

module _ (ext : External) (worker : Worker) where
  abbrev pub parsed : Option ℕ → M ℕ
  parsed none = throw invalid_uuid
  parsed (some id) = pure id

  unfoldable pub pop_and_fetch_task : M Task
  pop_and_fetch_task = do
    task_id_str ← pop worker.queue
    task_id ← parsed (ext.uuid_parse task_id_str)
    find_task_by_id task_id

  unfoldable pub handle_skipped_task : Task → M (Unit {0})
  handle_skipped_task task = do
    mark_skipped ext task.id
    ignore (
        publish_task_terminated (
          new_task_terminated_event task.execution_id task.id task.ref_id
            TaskTerminationType.skipped "skipped due to parent task failure"))
    inc (worker_tasks_processed task.action "skipped")

  -- The claimed task, with its version as it now is in the table; `none` if the claim failed.
  abbrev pub claimed : Task → Result (Unit {0}) → M (Option Task)
  claimed task (ok _) = pure (some (record task { version = task.version + 1 }))
  claimed task (err _) = inc worker_claim_failures >> pure none

  unfoldable pub claim_task : Task → M (Option Task)
  claim_task task =
      attempt (Tasks.claim_task task.id worker.worker_id task.version) >>= claimed task

  unfoldable pub reject_unknown_action : Task → M String
  reject_unknown_action task = do
    ignore (mark_failed ext task.id "unknown action")
    inc (worker_registry_errors task.action)
    inc (worker_tasks_processed task.action "failed")
    ignore (
        publish_task_terminated (
          new_task_terminated_event task.execution_id task.id task.ref_id TaskTerminationType.failed
            "unknown action"))
    ignore (update_status task.execution_id WorkflowStatus.failed)
    throw (failure "unknown action")

  abbrev pub returned : Result String → M String
  returned (ok output) = pure output
  returned (err e) = throw e

  -- The registry's answer decides.
  abbrev pub act : Context → Task → Option TaskHandler → M String
  act ctx task none = reject_unknown_action task
  act ctx task (some handler) = returned (handler ctx task.input)

  unfoldable pub execute_task_action : Context → Task → M String
  execute_task_action ctx task = act ctx task (lookup worker.registry task.action)

  unfoldable pub retry_task : Task → M (Unit {0})
  retry_task task = do
    inc (worker_retries task.action (task.retry_count + 1))
    increment_retry_count task.id task.version
    ignore (push worker.retry_queue (ext.uuid_string task.id))

  unfoldable pub mark_task_failed_permanently : Task → Error → M (Unit {0})
  mark_task_failed_permanently task exec_err = do
    ignore (mark_failed ext task.id (error_text exec_err))
    inc (task_retry_exhaustion task.action)
    inc (worker_tasks_processed task.action "failed")
    ignore (update_status task.execution_id WorkflowStatus.failed)
    ignore (
        publish_task_terminated (
          new_task_terminated_event task.execution_id task.id task.ref_id TaskTerminationType.failed
            (error_text exec_err)))

  unfoldable pub handle_task_failure : Task → Error → M (Unit {0})
  handle_task_failure task exec_err =
      if can_retry task task.max_retries
      then retry_task task
      else mark_task_failed_permanently task exec_err

  unfoldable pub handle_task_success : Task → String → M (Unit {0})
  handle_task_success task output = do
    ignore (mark_completed ext task.id (raw output))
    inc (worker_tasks_processed task.action "success")
    ignore (
        publish_task_completed
          (record { execution_id = task.execution_id; task_id = task.id; ref_id = task.ref_id }))

  abbrev pub settle : Task → Result String → M (Unit {0})
  settle task (ok output) = handle_task_success task output
  settle task (err e) = handle_task_failure task e

  -- What follows a claim. The deferred Dec runs on every path.
  unfoldable pub run_claimed : Context → Option Task → M (Unit {0})
  run_claimed ctx none = pure tt
  run_claimed ctx (some task) = do
    inc (worker_active_inc worker.worker_id)
    ignore (attempt (execute_task_action ctx task) >>= settle task)
    inc (worker_active_dec worker.worker_id)

  unfoldable pub process_next_task : Context → M (Unit {0})
  process_next_task ctx = do
    task ← pop_and_fetch_task
    if task.skip_hint then handle_skipped_task task else (claim_task task >>= run_claimed ctx)
