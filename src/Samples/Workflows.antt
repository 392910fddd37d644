-- ===== src/Samples/Workflows.antt =====
-- A workflow of three tasks: the last one needs the other two.
use go_tempo.Base.{ℕ, List, [], ◌∷◌, String, some, ◌+◌, map}
use go_tempo.Domain.{raw}
use go_tempo.World.{World}
use go_tempo.Repository.Rows.{with_defaults}
use go_tempo.Mapper.{TaskDto, CreateWorkflowRequest, to_workflow_execution}
use go_tempo.Samples.Services.{write_id}

abbrev pub dto : String → String → List String → TaskDto
dto ref_id action deps = record {
  ref_id = ref_id;
  action = action;
  dependencies = some deps;
  input = raw "{}";
}

abbrev pub request : CreateWorkflowRequest
request = record {
  type = "onboarding";
  user_id = 7;
  tasks =
      dto "profile" "create_employee_profile" []
      ∷ dto "email" "failing_task" []
      ∷ dto "benefits" "enroll_benefits" ("profile" ∷ "email" ∷ [])
      ∷ [];
}

-- uuid.New counts from 10.
abbrev pub new_id : ℕ → ℕ
new_id n = 10 + n

abbrev pub empty : World
empty = record {
  executions = [];
  tasks = [];
  pending = [];
  retry = [];
  completed = [];
  terminated = [];
  outages = [];
  metrics = [];
}

-- uuid.New counts from 0.
abbrev pub few : ℕ → ℕ
few n = n

abbrev pub offboarding : CreateWorkflowRequest
offboarding = record {
  type = "offboarding";
  user_id = 7;
  tasks =
      record { ref_id = "a"; action = "failing_task"; dependencies = some []; input = raw "{}" }
      ∷ record { ref_id = "b"; action = "failing_task"; dependencies = some []; input = raw "{}" }
      ∷ [];
}

-- The tables after the submission, with both first tasks in the queue.
unfoldable pub started : World
unfolding with_defaults to_workflow_execution
started =
    let (execution, tasks) = to_workflow_execution new_id request in
    record empty {
      executions = execution ∷ [];
      tasks = map with_defaults tasks;
      pending = write_id 11 ∷ write_id 12 ∷ [];
    }
