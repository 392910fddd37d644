-- ===== src/Samples/Instances.antt =====
-- The theorems on the handlers at concrete values.
use go_tempo.Base.{
  ℕ, ◌≡◌, ◌⊎◌, refl, true, false, List, String, some, none, arith, [], ◌∷◌, ◌<◌, ◌+◌, ◌++◌,
  if◌then◌else◌, ◌==◌,
}
use go_tempo.World.{World, failure, ok, err, ◌>>◌}
use go_tempo.Domain.{Task, raw}
use go_tempo.Repository.Rows.{count_where, has_execution, has_task, fits}
use go_tempo.Repository.Tasks.{accepts_row}
use go_tempo.Redis.Queue.{main_queue, items}
use go_tempo.Redis.Fifo.{push_all, pop_each, pop_each-push_all}
use go_tempo.Kahn.Replay.{Agrees, replay, replay_lem}
use go_tempo.Mapper.{to_task, to_tasks, to_workflow_execution}
use go_tempo.Service.Submission.{IsSubmitted, handle_submit_lem}
use go_tempo.Coordinator.Finish.{IsChecked, check_if_workflow_finished_lem}
use go_tempo.Worker.Registry.{lookup, Context, init_registry, timeout_loop}
use go_tempo.Worker.Process.{run_claimed}
use go_tempo.Worker.Timeouts.{IsOpen, IsDoneAt, timeout_loop_lem}
use go_tempo.Worker.Failures.{IsFailedFor, mark_task_failed_permanently_lem}
use go_tempo.Worker.Outcomes.{messages, run_claimed-messages_lem}
use go_tempo.System.{main_worker}
use go_tempo.Samples.Services.{write_id, services, strict_services, services-Documented}
use go_tempo.Samples.Workflows.{request, new_id, empty, started}

-- The context is done from the second look on.
abbrev deadline : Context
deadline i = if i == 0 then none else some "context deadline exceeded"

abbrev tainted_row : Task
tainted_row =
    record (to_task 13 10 (record {
      ref_id = "benefits";
      action = "enroll_benefits";
      dependencies = some ("email" ∷ []);
      input = raw "{}";
    })) { skip_hint = true }

-- The row in the table, and its id in the queue.
abbrev waiting : World
waiting = record empty { tasks = tainted_row ∷ []; pending = write_id 13 ∷ [] }

-- A row of another workflow, which depends on a task of the same name.
abbrev foreign_row : Task
foreign_row = record tainted_row { id = 33; execution_id = 30 }

abbrev shared : World
shared = record started { tasks = foreign_row ∷ started.tasks }

replay_lem_example :
    Agrees 10
      (("email", true) ∷ ("profile", false) ∷ [])
      (replay services 10 (("email", true) ∷ ("profile", false) ∷ []) shared).tasks
    × ((later : List Task) × ((replay services 10
            (("email", true) ∷ ("profile", false) ∷ [])
            shared).tasks
          ≡ foreign_row ∷ later))
unfolding started to_workflow_execution to_task
replay_lem_example =
    replay_lem services services-Documented new_id 10 1 request.tasks
      (("email", true) ∷ ("profile", false) ∷ []) (foreign_row ∷ []) shared
      (tt, (tt, ((refl, (refl, tt)), tt))) (ground arith, (ground arith, tt)) (refl, (refl, tt))
      ((λ e. omega (arith, e)), tt) refl refl

handle_submit_lem_example : IsSubmitted services new_id request empty
unfolding services has_execution fits has_task accepts_row to_workflow_execution to_tasks to_task
handle_submit_lem_example = handle_submit_lem services new_id request empty refl refl refl refl

check_if_workflow_finished_lem_example : IsChecked 10 started
unfolding started
check_if_workflow_finished_lem_example = check_if_workflow_finished_lem 10 started refl

mark_task_failed_permanently_lem_example :
    IsFailedFor strict_services
      (main_worker init_registry "main")
      tainted_row
      (failure "\"")
      waiting
mark_task_failed_permanently_lem_example =
    mark_task_failed_permanently_lem strict_services (main_worker init_registry "main") tainted_row
      (failure "\"") waiting refl

pop_each-push_all_example :
    (((push_all main_queue ("b" ∷ "c" ∷ [])
          >> pop_each main_queue (items main_queue waiting ++ "b" ∷ "c" ∷ []))
        waiting).0
      ≡ ok (items main_queue waiting ++ "b" ∷ "c" ∷ []))
    × (items main_queue
          ((push_all main_queue ("b" ∷ "c" ∷ [])
              >> pop_each main_queue (items main_queue waiting ++ "b" ∷ "c" ∷ []))
            waiting).1
        ≡ [])
pop_each-push_all_example = pop_each-push_all main_queue ("b" ∷ "c" ∷ []) waiting refl

timeout_loop_lem_example :
    IsOpen deadline 0 100
      × (timeout_loop 100 0 deadline (raw "{}")
          ≡ ok "{\"status\": \"success\", \"completed\": true}")
    ⊎ ((k : ℕ) × (e : String) × (k < 100)
        × IsDoneAt deadline 0 k e
        × (timeout_loop 100 0 deadline (raw "{}") ≡ err (failure e)))
timeout_loop_lem_example = timeout_loop_lem 100 0 deadline (raw "{}")

-- An action that is not in the registry.
run_claimed-messages_lem_example :
    messages (run_claimed services (main_worker [] "main") deadline (some tainted_row) waiting).1
    ≡ messages waiting + 2
unfolding count_where to_task lookup
run_claimed-messages_lem_example =
    run_claimed-messages_lem services (main_worker [] "main") tainted_row deadline waiting refl
      (omega arith)
