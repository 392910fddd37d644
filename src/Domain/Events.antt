-- ===== src/Domain/Events.antt =====
-- internal/domain/events.go
use go_tempo.Base.{ℕ, String}

pub record TaskCompletedEvent : Type 0 where
  pub execution_id : ℕ
  pub task_id : ℕ
  pub ref_id : String

pub data TaskTerminationType : Type 0 where
  failed skipped : TaskTerminationType

pub record TaskTerminatedEvent : Type 0 where
  pub execution_id : ℕ
  pub task_id : ℕ
  pub ref_id : String
  pub type : TaskTerminationType
  pub error : String

unfoldable pub new_task_terminated_event :
    (execution_id task_id : ℕ) (ref_id : String) (termination_type : TaskTerminationType)
    (error_msg : String)
    → TaskTerminatedEvent
new_task_terminated_event execution_id task_id ref_id termination_type error_msg = record {
  execution_id = execution_id;
  task_id = task_id;
  ref_id = ref_id;
  type = termination_type;
  error = error_msg;
}
