-- ===== src/World/Tables.antt =====
-- Properties of the two tables alone: what the queues, the channels and the counters do keeps them.
use go_tempo.Base.{String, Bool, true, false, List, [], ◌∷◌}
use go_tempo.Domain.{Task, WorkflowExecution, TaskCompletedEvent, TaskTerminatedEvent}
use go_tempo.World.State.{World, Error}
use go_tempo.World.Metrics.{Metric}
use go_tempo.World.Action.{
  write_tasks, write_executions, write_pending, write_retry, write_completed, write_terminated, inc,
  poll, service,
}
use go_tempo.World.Rules.{Preserves, preserves_rules}

pub record OnTables {ℓ} (Q : List WorkflowExecution → List Task → Type ℓ) (w : World) : Type ℓ where
  pub holds : Q w.executions w.tasks

module _ {ℓ} {Q : List WorkflowExecution → List Task → Type ℓ} where
  pub inc-OnTables : (m : Metric) → Preserves (OnTables Q) (inc m)
  unfolding inc
  inc-OnTables m = record { keep = λ w q. record { holds = q.holds } }

  poll-OnTables : (e : Error) (later : List Bool) → Preserves (OnTables Q) (poll e later)
  unfolding poll
  poll-OnTables e [] = record { keep = λ w q. q }
  poll-OnTables e (true ∷ later) = record { keep = λ w q. record { holds = q.holds } }
  poll-OnTables e (false ∷ later) = record { keep = λ w q. record { holds = q.holds } }

  pub service-OnTables : (e : Error) → Preserves (OnTables Q) (service e)
  unfolding service
  service-OnTables e = record { keep = λ w q. (poll-OnTables e w.outages).keep w q }

  pub write_pending-OnTables :
      (f : List String → List String) → Preserves (OnTables Q) (write_pending f)
  unfolding write_pending
  write_pending-OnTables f = record { keep = λ w q. record { holds = q.holds } }

  pub write_retry-OnTables :
      (f : List String → List String) → Preserves (OnTables Q) (write_retry f)
  unfolding write_retry
  write_retry-OnTables f = record { keep = λ w q. record { holds = q.holds } }

  pub write_completed-OnTables :
      (f : List TaskCompletedEvent → List TaskCompletedEvent)
      → Preserves (OnTables Q) (write_completed f)
  unfolding write_completed
  write_completed-OnTables f = record { keep = λ w q. record { holds = q.holds } }

  pub write_terminated-OnTables :
      (f : List TaskTerminatedEvent → List TaskTerminatedEvent)
      → Preserves (OnTables Q) (write_terminated f)
  unfolding write_terminated
  write_terminated-OnTables f = record { keep = λ w q. record { holds = q.holds } }

module _ {ℓ} {Q : List WorkflowExecution → List Task → Type ℓ} where
  pub write_tasks-OnTables :
      (f : List Task → List Task)
      → ((es : List WorkflowExecution) (ts : List Task) → Q es ts → Q es (f ts))
      → Preserves (OnTables Q) (write_tasks f)
  unfolding write_tasks
  write_tasks-OnTables f h = record {
    keep = λ w q. record { holds = h w.executions w.tasks q.holds };
  }

  pub write_executions-OnTables :
      (f : List WorkflowExecution → List WorkflowExecution)
      → ((es : List WorkflowExecution) (ts : List Task) → Q es ts → Q (f es) ts)
      → Preserves (OnTables Q) (write_executions f)
  unfolding write_executions
  write_executions-OnTables f h = record {
    keep = λ w q. record { holds = h w.executions w.tasks q.holds };
  }

pub ruleset tables_rules = (
  preserves_rules, inc-OnTables, service-OnTables, write_pending-OnTables, write_retry-OnTables,
  write_completed-OnTables, write_terminated-OnTables,
)
