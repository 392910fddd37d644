-- ===== src/System/Progress.antt =====
-- What no run of the program undoes.
use go_tempo.Base.{String, List, [], ◌∷◌, map}
use go_tempo.Domain.{Task, WorkflowExecution}
use go_tempo.External.{External}
use go_tempo.World.{World, OnTables}
use go_tempo.Repository.Rows.{with_defaults}
use go_tempo.Repository.Evolution.{
  Methods, Evolves-update_where, Evolves-append, TaskProgress, TaskProgress-trans,
  ExecutionProgress, ExecutionProgress-trans, TablesEvolve, Closed, statements,
}
use go_tempo.Worker.Registry.{TaskRegistry}
use go_tempo.System.Steps.{
  Step, Beside, beside, submit, work_main, work_retry, complete, terminate, disturb, lose_completed,
  lose_terminated, Reach, here, next, main_worker, retry_worker,
}
use go_tempo.System.Handlers.{
  handle_submit-keeps, coordinate_completed-keeps, coordinate_terminated-keeps,
  process_next_task-keeps,
}

pub evolving :
    (ext : External) (es₀ : List WorkflowExecution) (ts₀ : List Task)
    → Closed ext (TablesEvolve es₀ ts₀)
evolving ext es₀ ts₀ = record {
  on_update = λ p f es ts step q. record {
    executions = q.executions;
    tasks = Evolves-update_where TaskProgress TaskProgress-trans p f step ts₀ ts q.tasks;
  };
  on_status = λ p f es ts step q. record {
    executions =
        Evolves-update_where ExecutionProgress ExecutionProgress-trans p f step es₀ es q.executions;
    tasks = q.tasks;
  };
  on_execution = λ e es ts q. record {
    executions = Evolves-append ExecutionProgress es₀ es (e ∷ []) q.executions;
    tasks = q.tasks;
  };
  on_insert = λ more es ts _ _ q. record {
    executions = q.executions;
    tasks = Evolves-append TaskProgress ts₀ ts (map with_defaults more) q.tasks;
  };
}

module _ {ℓ} (ext : External) (registry : TaskRegistry) (main_id retry_id : String)
    {Q : List WorkflowExecution → List Task → Type ℓ} where
  -- What the methods keep, everything beside the workers keeps.
  pub Beside-keeps :
      {v w : World}
      → Methods ext Q
      → Beside ext registry main_id retry_id v w
      → OnTables Q v
      → OnTables Q w
  Beside-keeps keeps (submit new_id request w) q =
      (handle_submit-keeps ext keeps new_id request).keep w q
  Beside-keeps keeps (complete w) q = (coordinate_completed-keeps ext keeps).keep w q
  Beside-keeps keeps (terminate w) q = (coordinate_terminated-keeps ext keeps).keep w q
  Beside-keeps keeps (disturb outages w) q = record { holds = q.holds }
  Beside-keeps keeps (lose_completed event later w e) q = record { holds = q.holds }
  Beside-keeps keeps (lose_terminated event later w e) q = record { holds = q.holds }

module _ {ℓ} (ext : External) (registry : TaskRegistry) (main_id retry_id : String)
    {Q : List WorkflowExecution → List Task → Type ℓ} (closed : Closed ext Q) where
  -- A property of the tables that the statements keep holds after every step.
  pub Step-keeps :
      {v w : World} → Step ext registry main_id retry_id v w → OnTables Q v → OnTables Q w
  Step-keeps (beside step) q =
      Beside-keeps ext registry main_id retry_id (statements ext closed).methods step q
  Step-keeps (work_main ctx w) q =
      (process_next_task-keeps ext (main_worker registry main_id) (statements ext closed) ctx).keep
        w q
  Step-keeps (work_retry ctx w) q =
      (process_next_task-keeps ext (retry_worker registry retry_id) (statements ext closed)
          ctx).keep
        w q

  pub Reach-keeps :
      {v w : World} → Reach ext registry main_id retry_id v w → OnTables Q v → OnTables Q w
  Reach-keeps here q = q
  Reach-keeps (next r s) q = Step-keeps s (Reach-keeps r q)
