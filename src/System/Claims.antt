-- ===== src/System/Claims.antt =====
-- The optimistic lock in a run of the whole program.
use go_tempo.Base.{ℕ, ◌≡◌, refl, [], String, some, ◌+◌, arith}
use go_tempo.Domain.{Task, TaskStatus}
use go_tempo.External.{External}
use go_tempo.World.{World, ok, err, record_not_found, database_error, replies, service-calm}
use go_tempo.Repository.Rows.{has_version}
use go_tempo.Repository.Tasks.{claim_task, update_tasks}
use go_tempo.Repository.Locks.{
  IsKeyed, IsSpent, count_where-IsSpent, update_where-IsSpent, claim_task-eq-ok, update_where-above,
  has_task-count_where,
}
use go_tempo.Repository.Evolution.{claimed-TaskProgress}
use go_tempo.Repository.RowFacts.{has_task-update_where}
use go_tempo.Repository.Keys.{IsKeyed-closed}
use go_tempo.Worker.Registry.{TaskRegistry}
use go_tempo.System.Steps.{Reach}
use go_tempo.System.Progress.{Reach-keeps}

-- The primary key of the tasks table, in runs of whole handlers.
pub Reach-IsKeyed :
    (ext : External) (registry : TaskRegistry) (main_id retry_id : String) {v w : World}
    → Reach ext registry main_id retry_id v w
    → IsKeyed v.tasks
    → IsKeyed w.tasks
Reach-IsKeyed ext registry main_id retry_id r k =
    (Reach-keeps ext registry main_id retry_id (IsKeyed-closed ext) r (record { holds = k })).holds

pub claim_task-IsSpent :
    (id v : ℕ) (worker : String) (w w' : World)
    → IsKeyed w.tasks
    → claim_task id worker v w ≡ (ok tt, w')
    → IsSpent id v w'.executions w'.tasks
claim_task-IsSpent id v worker w w' k e =
    let (after, found) = claim_task-eq-ok id v worker w w' e in
    record {
      known =
          rw
            (
              after,
              has_task-update_where id (has_version id v) _ w.tasks
                  (claimed-TaskProgress id worker v),
            )
            (has_task-count_where id v w.tasks found);
      rows = rw after (update_where-above id v _ (λ t. refl) w.tasks k found);
    }

pub claim_task-refused :
    (id v : ℕ) (worker : String) (w : World)
    → IsSpent id v w.executions w.tasks
    → w.outages ≡ []
    → ((claim_task id worker v w).0 ≡ err record_not_found)
      × ((claim_task id worker v w).1.tasks ≡ w.tasks)
unfolding claim_task update_tasks replies
claim_task-refused id v worker w s calm = ground (
  arith,
  service-calm database_error w calm,
  count_where-IsSpent id v w.tasks s.rows,
  update_where-IsSpent id v
      (λ (t : Task). record t {
        status = TaskStatus.running;
        worker_id = some worker;
        version = v + 1;
      })
      w.tasks s.rows,
)
