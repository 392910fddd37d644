-- ===== src/Repository/Workflows.antt =====
-- internal/core/postgres/repository/workflow_repository_impl.go
use go_tempo.Base.{ℕ, Bool, not, ◌&&◌, [], ◌∷◌, ◌++◌, ◌==◌, if◌then◌else◌, first_where}
use go_tempo.Domain.{WorkflowExecution, WorkflowStatus, same_status}
use go_tempo.External.{External}
use go_tempo.World.{
  M, some_or, record_not_found, database_error, pure, throw, gets, write_executions, inc, service,
  ◌>>=◌, ◌>>◌, on_error, db_query_errors,
}
use go_tempo.Repository.Rows.{update_where, has_execution}

-- WHERE id = ? AND status != ? AND status != 'FAILED'
unfoldable pub may_update : (execution_id : ℕ) (status : WorkflowStatus) → WorkflowExecution → Bool
may_update execution_id status e =
    e.id == execution_id
    && not (same_status e.status status)
    && not (same_status e.status WorkflowStatus.failed)

unfoldable pub create : External → WorkflowExecution → M (Unit {0})
create ext execution =
    on_error
      (do
        service database_error
        known ← gets (λ w. has_execution execution.id w.executions)
        if not known && ext.accepts_execution execution then pure tt else throw database_error
        write_executions (λ executions. executions ++ execution ∷ []))
      (inc (db_query_errors "create_workflow"))

unfoldable pub get_by_id : (execution_id : ℕ) → M WorkflowExecution
get_by_id execution_id = do
  on_error (service database_error) (inc (db_query_errors "get_workflow"))
  found ← gets (λ w. first_where (λ e. e.id == execution_id) w.executions)
  some_or record_not_found found

unfoldable pub update_status : (execution_id : ℕ) (status : WorkflowStatus) → M (Unit {0})
update_status execution_id status =
    on_error
      (do
        service database_error
        write_executions
            (update_where (may_update execution_id status) (λ e. record e { status = status })))
      (inc (db_query_errors "update_workflow_status"))
