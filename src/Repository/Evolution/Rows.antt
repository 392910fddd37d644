-- ===== src/Repository/Evolution/Rows.antt =====
-- Each UPDATE of the repositories moves a row on.
use go_tempo.Base.{ℕ, ◌+◌, ◌≡◌, refl, true, String, some, pred_ℤ-le, ≤ℤ_refl, arith}
use go_tempo.Domain.{Task, TaskStatus, Json, WorkflowExecution, WorkflowStatus}
use go_tempo.Repository.Rows.{has_version}
use go_tempo.Repository.Dag.{decrement_row, taint_row}
use go_tempo.Repository.Workflows.{may_update}
use go_tempo.Repository.Evolution.Rules.{TaskProgress, ExecutionProgress}

pub decrement_row-TaskProgress : (t : Task) → TaskProgress t (decrement_row t)
unfolding decrement_row
decrement_row-TaskProgress t = record {
  id = refl;
  execution_id = refl;
  ref_id = refl;
  action = refl;
  dependencies = refl;
  input = refl;
  max_retries = refl;
  version = omega arith;
  retry_count = omega arith;
  stamped = λ h. refl;
  skip_hint = λ h. h;
  in_degree = pred_ℤ-le t.in_degree;
}

pub taint_row-TaskProgress : (t : Task) → TaskProgress t (taint_row t)
unfolding taint_row
taint_row-TaskProgress t = record {
  id = refl;
  execution_id = refl;
  ref_id = refl;
  action = refl;
  dependencies = refl;
  input = refl;
  max_retries = refl;
  version = omega arith;
  retry_count = omega arith;
  stamped = λ h. refl;
  skip_hint = λ h. refl;
  in_degree = pred_ℤ-le t.in_degree;
}

pub claimed-TaskProgress :
    (id : ℕ) (worker : String) (version : ℕ) (t : Task)
    → has_version id version t ≡ true
    → TaskProgress t
        (record t { status = TaskStatus.running; worker_id = some worker; version = version + 1 })
claimed-TaskProgress id worker version t h = record {
  id = refl;
  execution_id = refl;
  ref_id = refl;
  action = refl;
  dependencies = refl;
  input = refl;
  max_retries = refl;
  version = ground arith;
  retry_count = omega arith;
  stamped = λ e. ground arith;
  skip_hint = λ h. h;
  in_degree = ≤ℤ_refl t.in_degree;
}

pub retried-TaskProgress :
    (id version : ℕ) (t : Task)
    → has_version id version t ≡ true
    → TaskProgress t (record t {
      retry_count = t.retry_count + 1;
      status = TaskStatus.pending;
      version = version + 1;
    })
retried-TaskProgress id version t h = record {
  id = refl;
  execution_id = refl;
  ref_id = refl;
  action = refl;
  dependencies = refl;
  input = refl;
  max_retries = refl;
  version = ground arith;
  retry_count = omega arith;
  stamped = λ e. ground arith;
  skip_hint = λ h. h;
  in_degree = ≤ℤ_refl t.in_degree;
}

-- The three final states change nothing that the order is about.
pub settled-TaskProgress :
    (status : TaskStatus) (last_error : String) (output : Json) (t : Task)
    → TaskProgress t (record t { status = status; last_error = last_error; output = output })
settled-TaskProgress status last_error output t = record {
  id = refl;
  execution_id = refl;
  ref_id = refl;
  action = refl;
  dependencies = refl;
  input = refl;
  max_retries = refl;
  version = omega arith;
  retry_count = omega arith;
  stamped = λ h. refl;
  skip_hint = λ h. h;
  in_degree = ≤ℤ_refl t.in_degree;
}

pub updated-ExecutionProgress :
    (id : ℕ) (status : WorkflowStatus) (e : WorkflowExecution)
    → may_update id status e ≡ true
    → ExecutionProgress e (record e { status = status })
unfolding may_update
updated-ExecutionProgress id status e h = record {
  id = refl;
  user_id = refl;
  workflow_type = refl;
  failed = λ p. ground arith;
}
