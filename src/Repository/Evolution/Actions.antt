-- ===== src/Repository/Evolution/Actions.antt =====
-- The methods of the repositories keep what their statements keep.
use go_tempo.Base.{All, ℕ, ◌+◌, ◌≡◌, Bool, true, List, [], ◌∷◌, ◌++◌, String, Bool-cases, inl, inr}
use go_tempo.Domain.{Task, TaskStatus, Json, raw, WorkflowExecution, WorkflowStatus}
use go_tempo.External.{External, error_output, skipped_output}
use go_tempo.World
use go_tempo.World.{
  M, World, Error, Result, ok, err, Preserves, preserves_rules, OnTables, write_tasks-OnTables,
  write_executions-OnTables, inc-OnTables, service-OnTables, tables_rules, ◌>>=◌, actions,
}
use go_tempo.Repository.Rows.{update_where, fits, has_version}
use go_tempo.Repository.Tasks.{
  update_tasks, transaction, rolled_back, insert_execution, insert_tasks, add_fitting, accepts_row,
  create_execution, find_task_by_id, claim_task, mark_completed, mark_failed, mark_skipped,
  increment_retry_count,
}
use go_tempo.Repository.Dag.{
  decrement_row, taint_row, decrement_query, decrement_and_get_ready_tasks,
  decrement_and_set_skip_hint, are_all_tasks_completed,
}
use go_tempo.Repository.Workflows.{may_update, create, get_by_id, update_status}
use go_tempo.Repository.Evolution.Rows.{updated-ExecutionProgress}
use go_tempo.Repository.Evolution.Closure.{RowSteps, ClosedUnder, IsFresh}

-- A transaction that fails leaves the tables as they were.
rolled_back-OnTables {ℓ} :
    {Q : List WorkflowExecution → List Task → Type ℓ} {A : Type 0} (w w' : World) (r : Result A)
    → OnTables Q w
    → OnTables Q w'
    → OnTables Q (rolled_back w (r, w')).1
rolled_back-OnTables w w' (ok a) q q' = record { holds = q'.holds }
rolled_back-OnTables w w' (err e) q q' = record { holds = q.holds }

pub transaction-OnTables {ℓ} :
    {Q : List WorkflowExecution → List Task → Type ℓ} (body : M Unit)
    → Preserves (OnTables Q) body
    → Preserves (OnTables Q) (transaction body)
unfolding transaction
transaction-OnTables {Q} body p = record {
  keep = λ w q. rolled_back-OnTables w _ _ q (Preserves.keep inner w q);
}
  where
    inner : Preserves (OnTables Q) (body >>= λ _. World.service World.database_error)
    inner = search (tables_rules)

module _ {ℓ} (ext : External) {Q : List WorkflowExecution → List Task → Type ℓ}
    {S : Task → Task → Type 0} (row : RowSteps S) (closed : ClosedUnder ext S Q) where
  open closed use {on_update, on_status, on_execution, on_insert}
  open row use {decrements_row, taints_row, claims_row, settles_row}

  abbrev On : World → Type ℓ
  On = OnTables Q

  -- An UPDATE of tasks, whatever it does to the rows that its condition leaves out.
  update-On :
      (p : Task → Bool) (f : Task → Task)
      → ((t : Task) → p t ≡ true → S t (f t))
      → Preserves On (World.write_tasks (update_where p f))
  update-On p f step = write_tasks-OnTables _ (λ es ts. on_update p f es ts step)

  update_tasks-On :
      (valid : Bool) (p : Task → Bool) (f : Task → Task)
      → ((t : Task) → p t ≡ true → S t (f t))
      → Preserves On (update_tasks valid p f)
  unfolding update_tasks
  update_tasks-On valid p f step = search (tables_rules, update-On) depth 9

  pub claim_task-On :
      (id : ℕ) (worker : String) (version : ℕ) → Preserves On (claim_task id worker version)
  unfolding claim_task
  claim_task-On id worker version = search (tables_rules, update_tasks-On, claims_row)

  pub increment_retry_count-On :
      ((id version : ℕ) (t : Task)
        → has_version id version t ≡ true
        → S t (record t {
          retry_count = t.retry_count + 1;
          status = TaskStatus.pending;
          version = version + 1;
        }))
      → (id version : ℕ) → Preserves On (increment_retry_count id version)
  unfolding increment_retry_count
  increment_retry_count-On retried id version = search (tables_rules, update_tasks-On, retried)

  pub mark_completed-On : (id : ℕ) (output : Json) → Preserves On (mark_completed ext id output)
  unfolding mark_completed
  mark_completed-On id output = search (
    tables_rules,
    update_tasks-On _ _ _ (λ t _. settles_row TaskStatus.completed t.last_error output t),
  )

  pub mark_failed-On : (id : ℕ) (message : String) → Preserves On (mark_failed ext id message)
  unfolding mark_failed
  mark_failed-On id message = search (
    tables_rules,
    update_tasks-On _ _ _
        (λ t _. settles_row TaskStatus.failed message (raw (error_output message)) t),
  )

  pub mark_skipped-On : (id : ℕ) → Preserves On (mark_skipped ext id)
  unfolding mark_skipped
  mark_skipped-On id = search (
    tables_rules,
    update_tasks-On _ _ _
        (λ t _. settles_row TaskStatus.skipped t.last_error (raw skipped_output) t),
  )

  pub find_task_by_id-On : (id : ℕ) → Preserves On (find_task_by_id id)
  unfolding find_task_by_id
  find_task_by_id-On id = search tables_rules

  pub decrement_query-On :
      (f : Task → Task)
      → ((t : Task) → S t (f t))
      → (operation : String) (execution_id : ℕ) (ref_id : String)
      → Preserves On (decrement_query ext f operation execution_id ref_id)
  unfolding decrement_query
  decrement_query-On f step operation execution_id ref_id =
      search (tables_rules, update-On, step) depth 8

  pub decrement_and_get_ready_tasks-On :
      (execution_id : ℕ) (ref_id : String)
      → Preserves On (decrement_and_get_ready_tasks ext execution_id ref_id)
  unfolding decrement_and_get_ready_tasks
  decrement_and_get_ready_tasks-On = decrement_query-On decrement_row decrements_row _

  pub decrement_and_set_skip_hint-On :
      (execution_id : ℕ) (ref_id : String)
      → Preserves On (decrement_and_set_skip_hint ext execution_id ref_id)
  unfolding decrement_and_set_skip_hint
  decrement_and_set_skip_hint-On = decrement_query-On taint_row taints_row _

  pub are_all_tasks_completed-On :
      (execution_id : ℕ) → Preserves On (are_all_tasks_completed execution_id)
  unfolding are_all_tasks_completed
  are_all_tasks_completed-On execution_id = search tables_rules

  pub get_by_id-On : (execution_id : ℕ) → Preserves On (get_by_id execution_id)
  unfolding get_by_id
  get_by_id-On execution_id = search tables_rules

  update_executions-On :
      (id : ℕ) (status : WorkflowStatus)
      → Preserves On (
          World.write_executions
            (update_where (may_update id status) (λ e. record e { status = status })))
  update_executions-On id status =
      write_executions-OnTables _
        (λ es ts. on_status (may_update id status) _ es ts (updated-ExecutionProgress id status))

  pub update_status-On : (id : ℕ) (status : WorkflowStatus) → Preserves On (update_status id status)
  unfolding update_status
  update_status-On id status = search (tables_rules, update_executions-On)

  add_execution-On :
      (e : WorkflowExecution) → Preserves On (World.write_executions (λ es. es ++ e ∷ []))
  add_execution-On e = write_executions-OnTables _ (λ es ts. on_execution e es ts)

  pub create-On : (e : WorkflowExecution) → Preserves On (create ext e)
  unfolding create
  create-On e = search (tables_rules, add_execution-On) depth 9

  insert_execution-On : (e : WorkflowExecution) → Preserves On (insert_execution ext e)
  unfolding insert_execution
  insert_execution-On e = search (tables_rules, add_execution-On) depth 9

  -- The rows that are added fit the table as it is at that moment.
  add_fitting-On : (more : List Task) → All IsFresh more → Preserves On (add_fitting ext more)
  unfolding add_fitting actions
  add_fitting-On more fresh = record {
    keep = λ w q. elim (Bool-cases (fits (accepts_row ext) w.tasks more)) [
      | inl fit ↦ rw fit (record { holds = on_insert more w.executions w.tasks fit fresh q.holds })
      | inr unfit ↦ rw unfit q
    ];
  }

  insert_tasks-On : (ts : List Task) → All IsFresh ts → Preserves On (insert_tasks ext ts)
  unfolding insert_tasks
  insert_tasks-On ts fresh = search (tables_rules, add_fitting-On)

  pub create_execution-On :
      (e : WorkflowExecution) (ts : List Task)
      → All IsFresh ts
      → Preserves On (create_execution ext e ts)
  unfolding create_execution
  create_execution-On e ts fresh =
      search (tables_rules, transaction-OnTables, insert_execution-On, insert_tasks-On) depth 9
