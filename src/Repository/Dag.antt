-- ===== src/Repository/Dag.antt =====
-- internal/core/postgres/repository/task_repository_impl.go, the queries over the dependencies.
use go_tempo.Base.{
  ℕ, Bool, true, not, ◌&&◌, List, [], ◌∷◌, String, pred_ℤ, is_zero, ◌==◌, if◌then◌else◌, select,
}
use go_tempo.Domain.{Task, TaskStatus, is_completed}
use go_tempo.External.{External, dep_param}
use go_tempo.World.{
  M, database_error, pure, throw, gets, write_tasks, inc, service, ◌>>=◌, ◌>>◌, on_error,
  db_query_errors,
}
use go_tempo.Repository.Rows.{update_where, count_where}

-- SET in_degree = in_degree - 1, status = CASE WHEN in_degree - 1 = 0 THEN 'QUEUED' ELSE status END
unfoldable pub decrement_row : Task → Task
decrement_row t = record t {
  in_degree = pred_ℤ t.in_degree;
  status = if is_zero (pred_ℤ t.in_degree) then TaskStatus.queued else t.status;
}

-- The same with skip_hint = true.
unfoldable pub taint_row : Task → Task
unfolding decrement_row
taint_row t = record (decrement_row t) { skip_hint = true }

-- RETURNING id, in_degree, and the loop that collects the ids with in_degree 0.
unfoldable pub ready_ids : (Task → Bool) → (Task → Task) → List Task → List ℕ
ready_ids p f [] = []
ready_ids p f (t ∷ ts) =
    if p t && is_zero (f t).in_degree then t.id ∷ ready_ids p f ts else ready_ids p f ts

module _ (ext : External) where
  -- WHERE execution_id = ? AND dependencies @> ?
  unfoldable pub depends_on : (execution_id : ℕ) (ref_id : String) → Task → Bool
  depends_on execution_id ref_id t =
      t.execution_id == execution_id && ext.jsonb_contains t.dependencies (dep_param ref_id)

  unfoldable pub find_children : (execution_id : ℕ) (parent_name : String) → M (List Task)
  find_children execution_id parent_name = do
    service database_error
    if ext.jsonb_valid (dep_param parent_name) then pure tt else throw database_error
    gets (λ w. select (depends_on execution_id parent_name) w.tasks)

  -- The statement that both methods run, with the assignments to a row as an argument.
  unfoldable pub decrement_query :
      (Task → Task) → (operation : String) (execution_id : ℕ) (ref_id : String) → M (List ℕ)
  decrement_query f operation execution_id ref_id = do
    on_error
        (service database_error
          >> (if ext.jsonb_valid (dep_param ref_id) then pure tt else throw database_error))
        (inc (db_query_errors operation))
    ready ← gets (λ w. ready_ids (depends_on execution_id ref_id) f w.tasks)
    write_tasks (update_where (depends_on execution_id ref_id) f)
    pure ready

  unfoldable pub decrement_and_get_ready_tasks :
      (execution_id : ℕ) (completed_ref_id : String) → M (List ℕ)
  decrement_and_get_ready_tasks = decrement_query decrement_row "decrement_ready"

  unfoldable pub decrement_and_set_skip_hint :
      (execution_id : ℕ) (failed_ref_id : String) → M (List ℕ)
  decrement_and_set_skip_hint = decrement_query taint_row "decrement_skip"

-- The rows that the query below counts: those of the execution that are not COMPLETED.
abbrev pub is_unfinished : (execution_id : ℕ) → Task → Bool
is_unfinished execution_id t = t.execution_id == execution_id && not (is_completed t.status)

unfoldable pub are_all_tasks_completed : (execution_id : ℕ) → M Bool
are_all_tasks_completed execution_id = do
  on_error (service database_error) (inc (db_query_errors "check_completed"))
  count ← gets (λ w. count_where (is_unfinished execution_id) w.tasks)
  pure (count == 0)
