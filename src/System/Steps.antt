-- ===== src/System/Steps.antt =====
-- The steps of the running program: a handler runs from its call to its return. The order of the
-- steps, what fails in them, and what the handlers of the actions see, are open.
use go_tempo.Base.{ℕ, Bool, List, ◌∷◌, ◌≡◌, Option, String}
use go_tempo.Domain.{TaskCompletedEvent, TaskTerminatedEvent}
use go_tempo.External.{External}
use go_tempo.World.{World}
use go_tempo.Redis.Queue.{main_queue, retry_queue}
use go_tempo.Mapper.{CreateWorkflowRequest}
use go_tempo.Service.{handle_submit}
use go_tempo.Coordinator.{coordinate_completed, coordinate_terminated}
use go_tempo.Worker.Registry.{TaskRegistry, Context}
use go_tempo.Worker.Process.{Worker, process_next_task}

-- The two workers of main, with the ids that NewWorker gives them.
abbrev pub main_worker : TaskRegistry → String → Worker
main_worker registry id = record {
  worker_id = id;
  queue = main_queue;
  retry_queue = retry_queue;
  registry = registry;
}

abbrev pub retry_worker : TaskRegistry → String → Worker
retry_worker registry id = record {
  worker_id = id;
  queue = retry_queue;
  retry_queue = retry_queue;
  registry = registry;
}

module _ (ext : External) (registry : TaskRegistry) (main_id retry_id : String) where
  -- What happens beside the workers.
  pub data Beside : World → World → Type 0 where
    submit :
        (new_id : ℕ → ℕ) (request : Option CreateWorkflowRequest) (w : World)
        → Beside w (handle_submit ext new_id request w).1
    complete : (w : World) → Beside w (coordinate_completed ext w).1
    terminate : (w : World) → Beside w (coordinate_terminated ext w).1
    -- Which of the next calls of a service fail.
    disturb : (outages : List Bool) (w : World) → Beside w (record w { outages = outages })
    -- A message of a channel that no subscriber gets.
    lose_completed :
        (event : TaskCompletedEvent) (later : List TaskCompletedEvent) (w : World)
        → w.completed ≡ event ∷ later
        → Beside w (record w { completed = later })
    lose_terminated :
        (event : TaskTerminatedEvent) (later : List TaskTerminatedEvent) (w : World)
        → w.terminated ≡ event ∷ later
        → Beside w (record w { terminated = later })

  pub data Step : World → World → Type 0 where
    beside : {v w : World} → Beside v w → Step v w
    work_main :
        (ctx : Context) (w : World)
        → Step w (process_next_task ext (main_worker registry main_id) ctx w).1
    work_retry :
        (ctx : Context) (w : World)
        → Step w (process_next_task ext (retry_worker registry retry_id) ctx w).1

  pub data Reach (w₀ : World) : World → Type 0 where
    here : Reach w₀ w₀
    next : {v w : World} → Reach w₀ v → Step v w → Reach w₀ w
