-- ===== src/Samples/Completions.antt =====
-- A workflow of two tasks, one of which needs the other, from its submission to its end.
use go_tempo.Base.{ℕ, refl, List, some, none, [], ◌∷◌, String, str_eq, if◌then◌else◌, arith, All}
use go_tempo.Domain.{raw, new_task, new_workflow}
use go_tempo.Mapper.{CreateWorkflowRequest, to_task, to_tasks, to_workflow_execution}
use go_tempo.Repository.Rows.{has_task, has_execution, fits}
use go_tempo.Repository.Tasks.{accepts_row, json_ok}
use go_tempo.Service.{handle_submit}
use go_tempo.Worker.Registry.{init_registry, lookup}
use go_tempo.Completion.Track.{Succeeds}
use go_tempo.Completion.Requests.{IsRunnable, refs}
use go_tempo.Completion.Quiet.{IsOver}
use go_tempo.Completion.Schedule.{
  Activity, work, work_again, coordinate, coordinate_failures, run_blocks,
}
use go_tempo.Completion.Start.{submitted-completes}
use go_tempo.Samples.Services.{services, services-Documented}
use go_tempo.Samples.Workflows.{few, empty, dto}

abbrev onboarding : CreateWorkflowRequest
onboarding = record {
  type = "onboarding";
  user_id = 7;
  tasks =
      dto "benefits" "enroll_benefits" ("profile" ∷ [])
      ∷ dto "profile" "create_employee_profile" []
      ∷ [];
}

abbrev profile_first : String → ℕ
profile_first r = if str_eq r "profile" then 0 else 1

abbrev both : List Activity
both =
    work "main" (λ i. none) ∷ work_again "retry" (λ i. none) ∷ coordinate ∷ coordinate_failures ∷ []

profile-Succeeds : Succeeds services init_registry "create_employee_profile" (raw "{}")
unfolding services init_registry lookup
profile-Succeeds = (_, refl, λ ctx. (_, refl, refl))

benefits-Succeeds : Succeeds services init_registry "enroll_benefits" (raw "{}")
unfolding services init_registry lookup
benefits-Succeeds = (_, refl, λ ctx. (_, refl, refl))

onboarding-IsRunnable :
    All (IsRunnable services init_registry profile_first (refs onboarding.tasks)) onboarding.tasks
onboarding-IsRunnable = (
  record {
    plain = ground arith;
    distinct = (refl, tt);
    deps = ((omega arith, refl), tt);
    succeeds = benefits-Succeeds;
  },
  (record { plain = ground arith; distinct = tt; deps = tt; succeeds = profile-Succeeds }, tt),
)

submitted-completes_example : IsOver 0 (refs onboarding.tasks) (
    run_blocks services init_registry
      (both ∷ both ∷ both ∷ both ∷ both ∷ [])
      (handle_submit services few (some onboarding) empty).1)
unfolding has_execution services to_workflow_execution to_tasks to_task new_task new_workflow fits
    has_task accepts_row json_ok
submitted-completes_example =
    submitted-completes services services-Documented init_registry few profile_first onboarding
      (refl, (refl, tt)) onboarding-IsRunnable refl empty tt (both ∷ both ∷ both ∷ both ∷ both ∷ [])
      tt refl refl refl refl refl refl refl refl
      ((refl, refl), ((refl, refl), ((refl, refl), ((refl, refl), ((refl, refl), tt)))))
      (omega arith)
