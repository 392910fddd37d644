-- ===== src/Worker/Phases.antt =====
-- internal/worker/worker.go, one call of a service at a time: where a thread stands inside
-- ProcessNextTask, and what it does next. Other threads may run between two such steps.
use go_tempo.Base.{ℕ, zero, suc, ◌+◌, Bool, true, false, String, Option, none, some, if◌then◌else◌}
use go_tempo.Domain.{
  Task, raw, TaskTerminationType, WorkflowStatus, can_retry, new_task_terminated_event,
}
use go_tempo.External.{External}
use go_tempo.World.{
  M, Error, Result, ok, err, failure, pure, inc, ◌>>=◌, ◌>>◌, attempt, ignore,
  worker_tasks_processed, worker_active_inc, worker_active_dec, worker_claim_failures,
  worker_registry_errors, worker_retries, task_retry_exhaustion,
}
use go_tempo.Repository.Tasks.{
  find_task_by_id, claim_task, mark_completed, mark_failed, mark_skipped, increment_retry_count,
}
use go_tempo.Repository.Workflows.{update_status}
use go_tempo.Redis.Queue.{push, pop}
use go_tempo.Redis.EventBus.{publish_task_completed, publish_task_terminated}
use go_tempo.Worker.Registry.{Context, TaskHandler, lookup}
use go_tempo.Worker.Process.{Worker, error_text}

-- Each constructor is named for what was done last.
pub data Phase : Type 0 where
  idle : Phase
  popped : (task_id : String) → Phase
  fetched skipped claimed rejecting rejected completing retrying : Task → Phase
  acted : Task → Result String → Phase
  failing gone : Task → Error → Phase

abbrev pub is_idle : Phase → Bool
is_idle idle = true
is_idle _ = false

module _ (ext : External) (worker : Worker) where
  abbrev pub after_pop : Result String → M Phase
  after_pop (ok task_id) = pure (popped task_id)
  after_pop (err e) = pure idle

  abbrev pub after_find : Result Task → M Phase
  after_find (ok task) = pure (fetched task)
  after_find (err e) = pure idle

  abbrev pub find_parsed : Option ℕ → M Phase
  find_parsed none = pure idle
  find_parsed (some id) = attempt (find_task_by_id id) >>= after_find

  abbrev pub after_skip : Task → Result (Unit {0}) → M Phase
  after_skip task (ok _) = pure (skipped task)
  after_skip task (err e) = pure idle

  abbrev pub after_claim : Task → Result (Unit {0}) → M Phase
  after_claim task (ok _) =
      inc (worker_active_inc worker.worker_id)
      >> pure (claimed (record task { version = task.version + 1 }))
  after_claim task (err e) = inc worker_claim_failures >> pure idle

  -- The deferred Dec.
  abbrev pub finish : M Phase
  finish = inc (worker_active_dec worker.worker_id) >> pure idle

  abbrev pub start_action : Context → Task → Option TaskHandler → M Phase
  start_action ctx task (some handler) = pure (acted task (handler ctx task.input))
  start_action ctx task none = do
    ignore (mark_failed ext task.id "unknown action")
    inc (worker_registry_errors task.action)
    inc (worker_tasks_processed task.action "failed")
    pure (rejecting task)

  abbrev pub after_increment : Task → Result (Unit {0}) → M Phase
  after_increment task (ok _) = pure (retrying task)
  after_increment task (err e) = finish

  abbrev pub terminated_event : Task → TaskTerminationType → String → M (Unit {0})
  terminated_event task type message = ignore (
      publish_task_terminated
        (new_task_terminated_event task.execution_id task.id task.ref_id type message))

  unfoldable pub advance : Context → Phase → M Phase
  advance ctx idle = attempt (pop worker.queue) >>= after_pop
  advance ctx (popped task_id) = find_parsed (ext.uuid_parse task_id)
  advance ctx (fetched task) =
      if task.skip_hint
      then (attempt (mark_skipped ext task.id) >>= after_skip task)
      else (attempt (claim_task task.id worker.worker_id task.version) >>= after_claim task)
  advance ctx (skipped task) = do
    terminated_event task TaskTerminationType.skipped "skipped due to parent task failure"
    inc (worker_tasks_processed task.action "skipped")
    pure idle
  advance ctx (claimed task) = start_action ctx task (lookup worker.registry task.action)
  advance ctx (rejecting task) = do
    terminated_event task TaskTerminationType.failed "unknown action"
    pure (rejected task)
  advance ctx (rejected task) = do
    ignore (update_status task.execution_id WorkflowStatus.failed)
    pure (acted task (err (failure "unknown action")))
  advance ctx (acted task (ok output)) = do
    ignore (mark_completed ext task.id (raw output))
    inc (worker_tasks_processed task.action "success")
    pure (completing task)
  advance ctx (acted task (err e)) =
      if can_retry task task.max_retries
      then (inc (worker_retries task.action (task.retry_count + 1))
          >> attempt (increment_retry_count task.id task.version)
          >>= after_increment task)
      else (do
        ignore (mark_failed ext task.id (error_text e))
        inc (task_retry_exhaustion task.action)
        inc (worker_tasks_processed task.action "failed")
        pure (failing task e))
  advance ctx (completing task) = do
    ignore (
        publish_task_completed
          (record { execution_id = task.execution_id; task_id = task.id; ref_id = task.ref_id }))
    finish
  advance ctx (retrying task) = do
    ignore (push worker.retry_queue (ext.uuid_string task.id))
    finish
  advance ctx (failing task e) = do
    ignore (update_status task.execution_id WorkflowStatus.failed)
    pure (gone task e)
  advance ctx (gone task e) = do
    terminated_event task TaskTerminationType.failed (error_text e)
    finish

  -- The thread alone, until it is idle or `fuel` steps are done.
  unfoldable pub until_idle : (fuel : ℕ) → Context → Phase → M Phase
  unfolding advance
  until_idle zero ctx phase = pure phase
  until_idle (suc fuel) ctx phase =
      if is_idle phase then pure phase else (advance ctx phase >>= until_idle fuel ctx)
