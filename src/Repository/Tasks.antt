-- ===== src/Repository/Tasks.antt =====
-- internal/core/postgres/repository/task_repository_impl.go
use go_tempo.Base.{
  ℕ, ◌+◌, Bool, true, not, ◌&&◌, List, [], ◌∷◌, ◌++◌, map, String, some, ◌==◌, if◌then◌else◌, null,
  first_where,
}
use go_tempo.Domain.{Task, TaskStatus, Json, raw, WorkflowExecution}
use go_tempo.External.{External, error_output, skipped_output}
use go_tempo.World.{
  World, M, some_or, Result, ok, err, record_not_found, database_error, pure, throw, gets,
  write_tasks, write_executions, inc, service, ◌>>=◌, ◌>>◌, on_error, db_query_errors,
  db_transactions, db_optimistic_lock_conflicts,
}
use go_tempo.Repository.Rows.{
  update_where, count_where, has_version, with_defaults, has_execution, fits,
}

-- The error path of a query.
abbrev pub counting_errors : {A : Type 0} → String → M A → M A
counting_errors operation m = on_error m (inc (db_query_errors operation))

-- One UPDATE of the table, with the number of rows that it changed. PostgreSQL refuses the statement
-- if a value is no valid JSON.
unfoldable pub update_tasks : (valid : Bool) → (Task → Bool) → (Task → Task) → M ℕ
update_tasks valid p f = do
  service database_error
  if valid then pure tt else throw database_error
  rows ← gets (λ w. count_where p w.tasks)
  write_tasks (update_where p f)
  pure rows

-- What a transaction that fails leaves of its writes.
abbrev pub rolled_back : {A : Type 0} → World → Result A × World → Result A × World
rolled_back w (ok a, w') = (ok a, w')
rolled_back w (err e, w') = (err e, record w' { executions = w.executions; tasks = w.tasks })

-- gorm's Transaction: the body, then the commit.
unfoldable pub transaction : M (Unit {0}) → M (Unit {0})
transaction body w = rolled_back w ((body >> service database_error) w)

-- `ErrRecordNotFound` is not counted as an error of the database.
unfoldable pub find_task_by_id : ℕ → M Task
find_task_by_id id = do
  counting_errors "find_task" (service database_error)
  found ← gets (λ w. first_where (λ t. t.id == id) w.tasks)
  some_or record_not_found found

abbrev pub conflict : String → M (Unit {0})
conflict operation = do inc (db_optimistic_lock_conflicts operation); throw record_not_found

unfoldable pub claim_task : (task_id : ℕ) (worker_id : String) (current_version : ℕ) → M (Unit {0})
claim_task task_id worker_id current_version = do
  rows ← counting_errors "claim_task" (
      update_tasks true (has_version task_id current_version) (λ t. record t {
        status = TaskStatus.running;
        worker_id = some worker_id;
        version = current_version + 1;
      }))
  if rows == 0 then conflict "claim_task" else pure tt

unfoldable pub increment_retry_count : (task_id current_version : ℕ) → M (Unit {0})
increment_retry_count task_id current_version = do
  rows ← counting_errors "increment_retry" (
      update_tasks true (has_version task_id current_version) (λ t. record t {
        retry_count = t.retry_count + 1;
        status = TaskStatus.pending;
        version = current_version + 1;
      }))
  if rows == 0 then conflict "increment_retry" else pure tt

module _ (ext : External) where
  -- Is the value accepted as a jsonb column?
  unfoldable pub json_ok : Json → Bool
  json_ok (raw text) = ext.jsonb_valid text
  json_ok _ = true

  unfoldable pub insert_execution : WorkflowExecution → M (Unit {0})
  insert_execution execution = do
    service database_error
    known ← gets (λ w. has_execution execution.id w.executions)
    if not known && ext.accepts_execution execution then pure tt else throw database_error
    write_executions (λ executions. executions ++ execution ∷ [])

  unfoldable pub accepts_row : Task → Bool
  unfolding json_ok
  accepts_row t =
      json_ok t.dependencies && json_ok t.input && json_ok t.output && ext.accepts_task t

  -- The rows are checked against the table as it is.
  unfoldable pub add_fitting : List Task → M (Unit {0})
  add_fitting tasks = do
    fit ← gets (λ w. fits accepts_row w.tasks tasks)
    if fit then pure tt else throw database_error
    write_tasks (λ table. table ++ map with_defaults tasks)

  unfoldable pub insert_tasks : List Task → M (Unit {0})
  insert_tasks tasks = service database_error >> add_fitting tasks

  abbrev pub create_execution_body : WorkflowExecution → List Task → M (Unit {0})
  create_execution_body execution tasks = do
    insert_execution execution
    if null tasks then pure tt else insert_tasks tasks

  unfoldable pub create_execution : WorkflowExecution → List Task → M (Unit {0})
  create_execution execution tasks = do
    on_error (transaction (create_execution_body execution tasks))
        (inc (db_query_errors "create_execution") >> inc (db_transactions "failed"))
    inc (db_transactions "success")

  unfoldable pub mark_completed : (task_id : ℕ) (output : Json) → M (Unit {0})
  mark_completed task_id output = do
    counting_errors "mark_completed" (
        update_tasks (json_ok output) (λ t. t.id == task_id)
          (λ t. record t { status = TaskStatus.completed; output = output }))
    pure tt

  unfoldable pub mark_failed : (task_id : ℕ) (err_message : String) → M (Unit {0})
  mark_failed task_id err_message = do
    let output = raw (error_output err_message)
    counting_errors "mark_failed" (
        update_tasks (json_ok output) (λ t. t.id == task_id)
          (λ t. record t { status = TaskStatus.failed; last_error = err_message; output = output }))
    pure tt

  unfoldable pub mark_skipped : (task_id : ℕ) → M (Unit {0})
  mark_skipped task_id = do
    let output = raw skipped_output
    counting_errors "mark_skipped" (
        update_tasks (json_ok output) (λ t. t.id == task_id)
          (λ t. record t { status = TaskStatus.skipped; output = output }))
    pure tt
