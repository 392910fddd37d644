-- ===== src/Samples/Interleavings.antt =====
-- The theorems on the interleaved threads at a run: a submission, and two threads that take a task each.
use go_tempo.Base.{ℕ, ◌≡◌, ◌≢◌, refl, true, false, some, none, arith, [], ◌∷◌}
use go_tempo.World.{World, ok, err, record_not_found, actions, ◌>>=◌}
use go_tempo.Domain.{Task, TaskStatus, raw, new_task, new_workflow}
use go_tempo.Mapper.{to_task, to_tasks, to_workflow_execution}
use go_tempo.Repository.Rows.{
  with_defaults, has_task, has_execution, fits, update_where, count_where,
}
use go_tempo.Repository.Tasks.{
  transaction, insert_execution, add_fitting, insert_tasks, accepts_row, json_ok, create_execution,
  find_task_by_id, claim_task, update_tasks,
}
use go_tempo.Repository.Locks.{IsKeyed}
use go_tempo.Repository.Retries.{IsBounded}
use go_tempo.Redis.Queue.{push, pop, take_front}
use go_tempo.Service.{get_root_tasks, enqueue_root_tasks, submit_workflow, handle_submit}
use go_tempo.Worker.Registry.{Context, init_registry}
use go_tempo.Worker.Process.{process_next_task}
use go_tempo.Worker.Phases.{idle, advance, until_idle}
use go_tempo.Worker.Sequential.{until_idle-process_next_task}
use go_tempo.System.{main_worker, submit}
use go_tempo.System.Threads.{Threads, advance_thread, move, around, Run, start, later}
use go_tempo.System.Invariant.{holding}
use go_tempo.System.Safety.{Run-exclusive, Run-IsBounded}
use go_tempo.System.Histories.{Run-TablesEvolve, Run-claimed_once}
use go_tempo.Repository.Evolution.{TablesEvolve}
use go_tempo.System.Tokens.{works_on, released}
use go_tempo.System.Once.{Run-one_worker, Run-released}
use go_tempo.Samples.Services.{services, services-Documented, write_id, read_id}
use go_tempo.Samples.Workflows.{few, offboarding, empty, started}

abbrev open_world : Context
open_world i = none

abbrev at_rest : Threads
at_rest = record { world = empty; phase = λ i. idle }

abbrev submitted : Threads
submitted = record {
  world = (handle_submit services few (some offboarding) empty).1;
  phase = λ i. idle;
}

-- Thread `i` of the pools takes a step.
abbrev turn : ℕ → Threads → Threads
turn i s = advance_thread services init_registry "main" "retry" i open_world s

-- Threads 0 and 1 take the two tasks.
abbrev taken : Threads
taken = turn 1 (turn 0 submitted)

taking : Run services init_registry "main" "retry" at_rest taken
taking =
    later
      (later (later start (around submitted.world (submit few (some offboarding) empty)))
        (move 0 open_world (omega arith)))
      (move 1 open_world (omega arith))

until_idle-process_next_task_example :
    (advance services (main_worker init_registry "main") open_world idle
        >>= until_idle services (main_worker init_registry "main") 8 open_world)
      started
    ≡ (
      ok idle,
      (process_next_task services (main_worker init_registry "main") open_world started).1,
    )
until_idle-process_next_task_example =
    until_idle-process_next_task services (main_worker init_registry "main") open_world started

first_takes : works_on services 1 (taken.phase 0) ≡ true
unfolding advance actions pop take_front handle_submit submit_workflow create_execution transaction
    insert_execution insert_tasks add_fitting accepts_row json_ok has_execution has_task fits
    services write_id read_id to_workflow_execution to_tasks to_task with_defaults get_root_tasks
    enqueue_root_tasks push new_task new_workflow
first_takes = refl

Run-one_worker_example : works_on services 1 (taken.phase 1) ≡ false
Run-one_worker_example =
    Run-one_worker services services-Documented init_registry "main" "retry" taking (λ i. refl) tt
      refl refl 1 0 1 (omega arith) (omega arith) (λ e. omega arith) first_takes

Run-released_example : released 1 taken.world.tasks ≡ true
Run-released_example =
    Run-released services services-Documented init_registry "main" "retry" taking (λ i. refl) tt
      refl refl 1 0 (omega arith) first_takes

Run-IsBounded_example : IsBounded taken.world.tasks
Run-IsBounded_example = Run-IsBounded services init_registry "main" "retry" taking (λ i. refl) tt tt

-- An id that is in the list twice: two threads run the task, with different versions of its row.
abbrev row : Task
row = with_defaults (
    to_task 1 0
      (record { ref_id = "a"; action = "failing_task"; dependencies = some []; input = raw "{}" }))

abbrev doubled : Threads
doubled = record {
  world = record empty { tasks = row ∷ []; pending = write_id 1 ∷ write_id 1 ∷ [] };
  phase = λ i. idle;
}

abbrev both : Threads
both = turn 1 (turn 1 (turn 1 (turn 0 (turn 0 (turn 0 doubled)))))

doubling : Run services init_registry "main" "retry" doubled both
doubling =
    later
      (later
        (later
          (later
            (later (later start (move 0 open_world (omega arith)))
              (move 0 open_world (omega arith)))
            (move 0 open_world (omega arith)))
          (move 1 open_world (omega arith)))
        (move 1 open_world (omega arith)))
      (move 1 open_world (omega arith))

-- What the two threads keep in memory.
abbrev first_held : Task
first_held = record row { version = 2 }

abbrev second_held : Task
second_held = record row { status = TaskStatus.running; worker_id = some "main"; version = 3 }

first_holds : holding (both.phase 0) ≡ some first_held
unfolding advance actions pop take_front services write_id read_id to_task with_defaults new_task
    find_task_by_id claim_task update_tasks update_where count_where
first_holds = refl

second_holds : holding (both.phase 1) ≡ some second_held
unfolding advance actions pop take_front services write_id read_id to_task with_defaults new_task
    find_task_by_id claim_task update_tasks update_where count_where
second_holds = refl

doubled-IsKeyed : IsKeyed doubled.world.tasks
unfolding has_task
doubled-IsKeyed = (refl, tt)

doubled-IsBounded : IsBounded doubled.world.tasks
unfolding with_defaults to_task new_task
doubled-IsBounded = (omega arith, tt)

Run-exclusive_example : ◌≢◌ {A = ℕ} first_held.version second_held.version
Run-exclusive_example =
    Run-exclusive services init_registry "main" "retry" doubling (λ i. refl) doubled-IsKeyed
      doubled-IsBounded 0 1 first_held second_held (λ e. omega arith) first_holds second_holds refl

Run-TablesEvolve_example : TablesEvolve [] [] taken.world.executions taken.world.tasks
Run-TablesEvolve_example = Run-TablesEvolve services init_registry "main" "retry" taking

-- Thread 0 has claimed the task; meanwhile thread 1 pops its id once more.
abbrev owned : World
owned = (claim_task 1 "main" 1 doubled.world).1

abbrev watched : Threads
watched = turn 1 (record doubled { world = owned })

watching : Run services init_registry "main" "retry" (record doubled { world = owned }) watched
watching = later start (move 1 open_world (omega arith))

owned_by_first : claim_task 1 "main" 1 doubled.world ≡ (ok tt, owned)
unfolding actions claim_task update_tasks update_where count_where to_task with_defaults new_task
owned_by_first = refl

watched_calm : watched.world.outages ≡ []
unfolding advance actions pop take_front services write_id read_id to_task with_defaults new_task
    claim_task update_tasks update_where count_where
watched_calm = refl

Run-claimed_once_example :
    ((claim_task 1 "other" 1 watched.world).0 ≡ err record_not_found)
    × ((claim_task 1 "other" 1 watched.world).1.tasks ≡ watched.world.tasks)
Run-claimed_once_example =
    Run-claimed_once services init_registry "main" "retry" 1 1 "main" "other" doubled owned
      owned_by_first watching doubled-IsKeyed watched_calm
