-- ===== src/Samples/Orders.antt =====
-- A worker and the coordinator on the table of a submitted workflow, with its first two rows in either order.
use mathlib.Core.List.{Permᴰ}
use go_tempo.Base.{false, refl, List, ◌∷◌, none}
use go_tempo.Domain.{Task, new_task}
use go_tempo.Mapper.{to_task, to_tasks, to_workflow_execution}
use go_tempo.Repository.Rows.{with_defaults, has_task}
use go_tempo.Worker.Registry.{init_registry}
use go_tempo.Worker.Process.{process_next_task}
use go_tempo.System.{main_worker}
use go_tempo.Ordering.Rows.{Reordered}
use go_tempo.Ordering.Rules.{Agrees}
use go_tempo.Kahn.Refinement.{end_query}
use go_tempo.Ordering.Queries.{AgreesOnIds, end_query-AgreesOnIds}
use go_tempo.Ordering.Workers.{process_next_task-Agrees}
use go_tempo.Samples.Services.{services}
use go_tempo.Samples.Workflows.{started}

abbrev swap_first : List Task → List Task
swap_first (a ∷ b ∷ ts) = b ∷ a ∷ ts
swap_first ts = ts

swapped-Reordered : Reordered started.tasks (swap_first started.tasks)
unfolding started with_defaults to_workflow_execution to_tasks to_task new_task has_task
swapped-Reordered = ((refl, (refl, (refl, tt))), Permᴰ.swap refl refl)

process_next_task-Agrees_example :
    Agrees
      (process_next_task services (main_worker init_registry "main") (λ i. none))
      started
      (swap_first started.tasks)
process_next_task-Agrees_example =
    process_next_task-Agrees services (main_worker init_registry "main") (λ i. none) started
      (swap_first started.tasks) swapped-Reordered

end_query-AgreesOnIds_example :
    AgreesOnIds (end_query services false 10 "profile") started (swap_first started.tasks)
end_query-AgreesOnIds_example =
    end_query-AgreesOnIds services false 10 "profile" started (swap_first started.tasks)
      swapped-Reordered
