-- ===== src/System/Histories.antt =====
-- What the statements of the repositories keep, in every run of the interleaved threads.
use go_tempo.Base.{ℕ, ◌≡◌, String, List, []}
use go_tempo.Domain.{Task, WorkflowExecution}
use go_tempo.External.{External}
use go_tempo.World.{World, OnTables, ok, err, record_not_found}
use go_tempo.Repository.Tasks.{claim_task}
use go_tempo.Repository.Evolution.{Closed, statements, TablesEvolve, TablesEvolve-refl}
use go_tempo.Repository.Locks.{IsKeyed, IsSpent-closed}
use go_tempo.Worker.Registry.{TaskRegistry}
use go_tempo.System.Progress.{Beside-keeps, evolving}
use go_tempo.System.Claims.{claim_task-IsSpent, claim_task-refused}
use go_tempo.System.Advance.{advance-keeps}
use go_tempo.System.Threads.{Threads, worker_of, Turn, move, around, Run, start, later}

module _ (ext : External) (registry : TaskRegistry) (main_id retry_id : String) where
  module _ {ℓ} {Q : List WorkflowExecution → List Task → Type ℓ} (closed : Closed ext Q) where
    Turn-keeps :
        {s t : Threads}
        → Turn ext registry main_id retry_id s t
        → OnTables Q s.world
        → OnTables Q t.world
    Turn-keeps {s} (move i ctx lt) q =
        (advance-keeps ext (worker_of registry main_id retry_id i) (statements ext closed).methods
            ctx (s.phase i) (λ t e same may. (statements ext closed).retries t.id t.version)).keep
          s.world q
    Turn-keeps (around w step) q =
        Beside-keeps ext registry main_id retry_id (statements ext closed).methods step q

    Run-keeps :
        {s t : Threads}
        → Run ext registry main_id retry_id s t
        → OnTables Q s.world
        → OnTables Q t.world
    Run-keeps start q = q
    Run-keeps (later r turn) q = Turn-keeps turn (Run-keeps r q)

  -- However the threads interleave, and whatever fails, no row of either table is removed, and each
  -- keeps its identity, its task description and its place; versions and retry counts do not fall,
  -- in-degrees do not rise, a skip hint stays set, and a FAILED execution stays FAILED.
  pub Run-TablesEvolve :
      {s t : Threads}
      → Run ext registry main_id retry_id s t
      → TablesEvolve s.world.executions s.world.tasks t.world.executions t.world.tasks
  Run-TablesEvolve {s} r =
      (Run-keeps (evolving ext s.world.executions s.world.tasks) r
        (record { holds = TablesEvolve-refl s.world.executions s.world.tasks })).holds

  -- After a claim that succeeded, however the threads interleave and whatever fails meanwhile, a claim
  -- of the task with the same version, by any worker, fails with ErrRecordNotFound and changes no row,
  -- if the ids of the rows were distinct and the database answers.
  pub Run-claimed_once :
      (id version : ℕ) (worker other : String) (s : Threads) (w : World) {t : Threads}
      → claim_task id worker version s.world ≡ (ok tt, w)
      → Run ext registry main_id retry_id (record s { world = w }) t
      → IsKeyed s.world.tasks
      → t.world.outages ≡ []
      → ((claim_task id other version t.world).0 ≡ err record_not_found)
        × ((claim_task id other version t.world).1.tasks ≡ t.world.tasks)
  Run-claimed_once id version worker other s w {t} claimed r keyed calm =
      let spent = claim_task-IsSpent id version worker s.world w keyed claimed in
      claim_task-refused id version other t.world
        ((Run-keeps (IsSpent-closed id version ext) r (record { holds = spent })).holds) calm
