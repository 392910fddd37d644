-- ===== src/System/Invariant.antt =====
-- What the threads know of the rows of their tasks.
use go_tempo.Base.{◌≡◌, sym, subst, Bool, true, List, Option, none, some, arith}
use go_tempo.Domain.{Task, WorkflowExecution, can_retry}
use go_tempo.External.{External}
use go_tempo.World.{
  Preserves, OnTables, bind-Preserves, on_error-Preserves, tables_rules, write_tasks,
  write_tasks-OnTables,
}
use go_tempo.Repository.Rows.{update_where, has_version}
use go_tempo.Repository.Tasks.{increment_retry_count, update_tasks}
use go_tempo.Repository.Evolution.{Closed, methods_under, TaskProgress, retried-TaskProgress}
use go_tempo.Repository.Keys.{IsKeyed-closed}
use go_tempo.Repository.Retries.{
  IsSound, IsSound-closed, Knows, Knows-closed, Quiet-steps, retried_row, retry-IsBounded,
}
use go_tempo.Worker.Registry.{Context}
use go_tempo.Worker.Process.{Worker}
use go_tempo.Worker.Phases.{Phase, fetched, claimed, rejecting, rejected, acted, advance}
use go_tempo.System.Advance.{advance-keeps}

-- The task whose claim the phase rests on, from the claim to the statement that ends it.
abbrev pub holding : Phase → Option Task
holding (claimed task) = some task
holding (rejecting task) = some task
holding (rejected task) = some task
holding (acted task result) = some task
holding _ = none

-- The task whose version the phase relies on.
abbrev pub known_task : Phase → Option Task
known_task (fetched task) = some task
known_task phase = holding phase

abbrev pub KnowsOf : Option Task → List WorkflowExecution → List Task → Type 0
KnowsOf none es ts = Unit
KnowsOf (some task) es ts = Knows task es ts

nothing-closed : (ext : External) → Closed ext (KnowsOf none)
nothing-closed ext = record {
  on_update = λ p f es ts step q. tt;
  on_status = λ p f es ts step q. tt;
  on_execution = λ e es ts q. tt;
  on_insert = λ more es ts fit fresh q. tt;
}

pub KnowsOf-closed : (ext : External) (o : Option Task) → Closed ext (KnowsOf o)
KnowsOf-closed ext none = nothing-closed ext
KnowsOf-closed ext (some task) = Knows-closed ext task

retried-IsSound :
    (ext : External) (task : Task)
    → can_retry task task.max_retries ≡ true
    → Preserves
        (OnTables (IsSound (Knows task)))
        (write_tasks (update_where (has_version task.id task.version) (retried_row task.version)))
unfolding can_retry
retried-IsSound ext task may = write_tasks-OnTables _ (λ es ts q. record {
  keyed = (IsKeyed-closed ext).on_update _ _ es ts step q.keyed;
  bounded = retry-IsBounded task ts (ground (arith, may)) q.fact.rows q.bounded;
  fact = (Knows-closed ext task).on_update _ _ es ts step q.fact;
})
  where
    step :
        (t : Task)
        → has_version task.id task.version t ≡ true
        → TaskProgress t (retried_row task.version t)
    step = retried-TaskProgress task.id task.version

update-writes {ℓ} :
    {Q : List WorkflowExecution → List Task → Type ℓ} (p : Task → Bool) (f : Task → Task)
    → Preserves (OnTables Q) (write_tasks (update_where p f))
    → Preserves (OnTables Q) (update_tasks true p f)
unfolding update_tasks
update-writes p f written = search tables_rules depth 9

-- The increment of a task that the thread knows.
increment-IsSound :
    (ext : External) (task : Task)
    → can_retry task task.max_retries ≡ true
    → Preserves (OnTables (IsSound (Knows task))) (increment_retry_count task.id task.version)
unfolding increment_retry_count
increment-IsSound ext task may =
    let updated = update-writes _ _ (retried-IsSound ext task may) in
    bind-Preserves _ _ (on_error-Preserves _ _ updated (search tables_rules))
      (λ rows. search tables_rules)

module _ (ext : External) (worker : Worker) (ctx : Context) where
  pub advance-IsSound :
      (phase : Phase)
      → Preserves (OnTables (IsSound (KnowsOf (known_task phase)))) (advance ext worker ctx phase)
  advance-IsSound phase =
      advance-keeps ext worker
        (methods_under ext Quiet-steps (IsSound-closed ext (KnowsOf-closed ext (known_task phase))))
        ctx phase
        (λ t e same may.
          subst
            (λ p.
              Preserves (OnTables (IsSound (KnowsOf (known_task p))))
                (increment_retry_count t.id t.version))
            (sym same) (increment-IsSound ext t may))
