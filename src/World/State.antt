-- ===== src/World/State.antt =====
-- The database tables, the Redis lists and channels, and the counters.
use go_tempo.Base.{Bool, List, String, ◌≡◌, ◌⊎◌, inl, inr, refl}
use go_tempo.Domain.{Task, WorkflowExecution, TaskCompletedEvent, TaskTerminatedEvent}
use go_tempo.World.Metrics.{Metric}

pub record World : Type 0 where
  pub executions : List WorkflowExecution
  pub tasks : List Task
  -- The lists workflow:queue:pending and workflow:queue:retry, the front first.
  pub pending : List String
  pub retry : List String
  -- The messages of the two channels that the coordinator has not received yet, oldest first.
  pub completed : List TaskCompletedEvent
  pub terminated : List TaskTerminatedEvent
  -- Whether the next calls of a service fail; past the end of the list none fails.
  pub outages : List Bool
  -- Newest first.
  pub metrics : List Metric

-- `failure` is an error that errors.New or a handler makes, `blocked` a call that does not return.
pub data Error : Type 0 where
  record_not_found database_error redis_error invalid_uuid blocked : Error
  failure : String → Error

pub data Result {ℓ} (A : Type ℓ) : Type ℓ where
  ok : A → Result A
  err : Error → Result A

-- To split on the result of a call and keep the equation.
pub Result-cases {ℓ} :
    {A : Type ℓ} (r : Result A) → ((a : A) × (r ≡ ok a)) ⊎ ((e : Error) × (r ≡ err e))
Result-cases (ok a) = inl (a, refl)
Result-cases (err e) = inr (e, refl)
