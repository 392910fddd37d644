-- ===== src/Samples/Witnesses.antt =====
-- The theorems at concrete values.
use go_tempo.Base.{◌++◌, map, ℕ, Option, String, ◌≡◌, ◌⊎◌, refl, true, false, [], ◌∷◌, none, arith}
use go_tempo.Domain.{TaskTerminatedEvent, TaskTerminationType, WorkflowExecution, WorkflowStatus}
use go_tempo.External.{IsPlain}
use go_tempo.World.{World, Error, ok, err, actions}
use go_tempo.Repository.Rows.{update_where, with_defaults}
use go_tempo.Repository.Dag.{
  decrement_row, depends_on, decrement_query, decrement_and_get_ready_tasks,
  decrement_and_set_skip_hint,
}
use go_tempo.Repository.Tasks.{create_execution}
use go_tempo.Repository.Atomic.{SameTables, Adds, create_execution-atomic}
use go_tempo.Kahn.Refinement.{Counted, end_query, end_query-refines, now_ready}
use go_tempo.Coordinator.{handle_task_completed, handle_task_terminated}
use go_tempo.Coordinator.Unblock.{handle_task_completed_lem, handle_task_terminated_lem}
use go_tempo.Mapper.{to_task, to_tasks, to_workflow_execution}
use go_tempo.Samples.Services.{services, services-Documented}
use go_tempo.Samples.Workflows.{started}

-- The context of the handlers is never done.
abbrev open_context : ℕ → Option String
open_context i = none

abbrev workflow : WorkflowExecution
workflow = record {
  id = 20;
  user_id = 7;
  workflow_type = "offboarding";
  status = WorkflowStatus.running;
}

-- After the end of "profile".
abbrev profiled : World
profiled = (end_query services false 10 "profile" started).1

abbrev email_failed : TaskTerminatedEvent
email_failed = record {
  execution_id = 10;
  task_id = 12;
  ref_id = "email";
  type = TaskTerminationType.failed;
  error = "simulated task failure";
}

profile-IsPlain : IsPlain "profile"
profile-IsPlain = ground arith

email-IsPlain : IsPlain "email"
email-IsPlain = ground arith

started-Counted : Counted 10 [] started.tasks
unfolding started with_defaults to_workflow_execution to_tasks to_task
started-Counted = (
  λ e. record { array = tt; distinct = tt; degree = refl; hint = refl },
  (
    λ e. record { array = tt; distinct = tt; degree = refl; hint = refl },
    (λ e. record { array = tt; distinct = (refl, (refl, tt)); degree = refl; hint = refl }, tt),
  ),
)

profiled-Counted : Counted 10 (("profile", false) ∷ []) profiled.tasks
unfolding started
profiled-Counted =
    (end_query-refines services services-Documented 10 "profile" [] profile-IsPlain started
      started-Counted refl false (refl, tt)).1

-- The end of "email" makes "benefits" ready, with both of its dependencies ended.
end_query-refines_example :
    ((end_query services true 10 "email" profiled).0 ≡ ok (13 ∷ []))
    × Counted 10
        (("email", true) ∷ ("profile", false) ∷ [])
        (end_query services true 10 "email" profiled).1.tasks
unfolding started with_defaults to_workflow_execution to_tasks to_task decrement_and_get_ready_tasks
    decrement_and_set_skip_hint decrement_query update_where decrement_row services depends_on
    actions
end_query-refines_example =
    end_query-refines services services-Documented 10 "email" (("profile", false) ∷ [])
      email-IsPlain profiled profiled-Counted refl true (refl, (refl, tt))

create_execution-atomic_example :
    ((create_execution services workflow [] started).0 ≡ ok tt)
      × Adds workflow [] started (create_execution services workflow [] started).1
    ⊎ ((x : Error) × ((create_execution services workflow [] started).0 ≡ err x)
        × SameTables started (create_execution services workflow [] started).1)
create_execution-atomic_example = create_execution-atomic services workflow [] started

-- The coordinator receives the ends of "profile" and "email", one after the other.
handle_task_completed_lem_example :
    (handle_task_completed services
      (record { execution_id = 10; task_id = 11; ref_id = "profile" })
      started).1.pending
    ≡ started.pending
      ++ map services.uuid_string (now_ready 10 "profile" (("profile", false) ∷ []) started.tasks)
unfolding started
handle_task_completed_lem_example =
    handle_task_completed_lem services services-Documented [] started refl
      (record { execution_id = 10; task_id = 11; ref_id = "profile" }) profile-IsPlain
      started-Counted (refl, tt)

handle_task_terminated_lem_example :
    (handle_task_terminated services email_failed profiled).1.pending
    ≡ profiled.pending
      ++ map services.uuid_string
          (now_ready 10 "email" (("email", true) ∷ ("profile", false) ∷ []) profiled.tasks)
unfolding started with_defaults to_workflow_execution to_tasks to_task decrement_and_get_ready_tasks
    decrement_query update_where decrement_row services depends_on actions
handle_task_terminated_lem_example =
    handle_task_terminated_lem services services-Documented (("profile", false) ∷ []) profiled refl
      email_failed email-IsPlain profiled-Counted (refl, (refl, tt))
