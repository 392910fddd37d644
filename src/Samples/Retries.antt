-- ===== src/Samples/Retries.antt =====
-- The theorem on the retries of a failing task at a concrete row.
use go_tempo.Base.{refl, [], some, none}
use go_tempo.Domain.{Task, raw, new_task}
use go_tempo.World.{failure}
use go_tempo.Mapper.{to_task}
use go_tempo.Repository.Rows.{with_defaults, has_task}
use go_tempo.Worker.Registry.{Context, init_registry, lookup}
use go_tempo.System.Attempts.{waiting}
use go_tempo.System.Exhaustion.{IsExhausted, rounds, rounds-exhaust}
use go_tempo.Samples.Services.{services, services-Documented}
use go_tempo.Samples.Workflows.{empty}

abbrev open_world : Context
open_world i = none

abbrev failing_row : Task
failing_row = with_defaults (
    to_task 1 0
      (record { ref_id = "a"; action = "failing_task"; dependencies = some []; input = raw "{}" }))

rounds-exhaust_example :
    IsExhausted failing_row []
      (failure "simulated task failure")
      empty
      (rounds services init_registry "retry" open_world 4 (waiting services failing_row [] empty))
unfolding services init_registry lookup to_task new_task with_defaults has_task
rounds-exhaust_example =
    rounds-exhaust services services-Documented init_registry "retry" open_world _
      (failure "simulated task failure") 3 failing_row [] empty refl (λ input. refl) refl refl refl
      refl
