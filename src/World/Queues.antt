-- ===== src/World/Queues.antt =====
-- Properties of the two lists alone: what is done to the tables, the channels and the counters keeps
-- them.
use go_tempo.Base.{String, Bool, true, false, List, [], ◌∷◌}
use go_tempo.Domain.{Task, WorkflowExecution, TaskCompletedEvent, TaskTerminatedEvent}
use go_tempo.World.State.{World, Error}
use go_tempo.World.Metrics.{Metric}
use go_tempo.World.Action.{
  write_tasks, write_executions, write_completed, write_terminated, inc, poll, service,
}
use go_tempo.World.Rules.{Preserves, preserves_rules}

pub record OnQueues {ℓ} (Q : List String → List String → Type ℓ) (w : World) : Type ℓ where
  pub waits : Q w.pending w.retry

module _ {ℓ} {Q : List String → List String → Type ℓ} where
  pub inc-OnQueues : (m : Metric) → Preserves (OnQueues Q) (inc m)
  unfolding inc
  inc-OnQueues m = record { keep = λ w q. record { waits = q.waits } }

  poll-OnQueues : (e : Error) (later : List Bool) → Preserves (OnQueues Q) (poll e later)
  unfolding poll
  poll-OnQueues e [] = record { keep = λ w q. q }
  poll-OnQueues e (true ∷ later) = record { keep = λ w q. record { waits = q.waits } }
  poll-OnQueues e (false ∷ later) = record { keep = λ w q. record { waits = q.waits } }

  pub service-OnQueues : (e : Error) → Preserves (OnQueues Q) (service e)
  unfolding service
  service-OnQueues e = record { keep = λ w q. (poll-OnQueues e w.outages).keep w q }

  pub write_tasks-OnQueues : (f : List Task → List Task) → Preserves (OnQueues Q) (write_tasks f)
  unfolding write_tasks
  write_tasks-OnQueues f = record { keep = λ w q. record { waits = q.waits } }

  pub write_executions-OnQueues :
      (f : List WorkflowExecution → List WorkflowExecution)
      → Preserves (OnQueues Q) (write_executions f)
  unfolding write_executions
  write_executions-OnQueues f = record { keep = λ w q. record { waits = q.waits } }

  pub write_completed-OnQueues :
      (f : List TaskCompletedEvent → List TaskCompletedEvent)
      → Preserves (OnQueues Q) (write_completed f)
  unfolding write_completed
  write_completed-OnQueues f = record { keep = λ w q. record { waits = q.waits } }

  pub write_terminated-OnQueues :
      (f : List TaskTerminatedEvent → List TaskTerminatedEvent)
      → Preserves (OnQueues Q) (write_terminated f)
  unfolding write_terminated
  write_terminated-OnQueues f = record { keep = λ w q. record { waits = q.waits } }

pub ruleset queues_rules = (
  preserves_rules, inc-OnQueues, service-OnQueues, write_tasks-OnQueues, write_executions-OnQueues,
  write_completed-OnQueues, write_terminated-OnQueues,
)
