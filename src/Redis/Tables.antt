-- ===== src/Redis/Tables.antt =====
-- Queues and channels leave the database alone.
use go_tempo.Base.{List, [], ◌∷◌, String}
use go_tempo.Domain.{Task, WorkflowExecution, TaskCompletedEvent, TaskTerminatedEvent}
use go_tempo.World.{
  Preserves, OnTables, tables_rules, preserves_rules, write_pending-OnTables, write_retry-OnTables,
}
use go_tempo.Redis.Queue.{RedisQueue, main_queue, retry_queue, push, take_front, pop}
use go_tempo.Redis.EventBus.{
  publish_task_completed, publish_task_terminated, forward_completed, receive_completed,
  forward_terminated, receive_terminated,
}

module _ {ℓ} {Q : List WorkflowExecution → List Task → Type ℓ} where
  pub push-OnTables : (q : RedisQueue) (id : String) → Preserves (OnTables Q) (push q id)
  unfolding push
  push-OnTables main_queue id = search tables_rules
  push-OnTables retry_queue id = search tables_rules

  take_front-OnTables : (q : RedisQueue) (l : List String) → Preserves (OnTables Q) (take_front q l)
  unfolding take_front
  take_front-OnTables q [] = search tables_rules
  take_front-OnTables main_queue (id ∷ later) = search tables_rules
  take_front-OnTables retry_queue (id ∷ later) = search tables_rules

  pub pop-OnTables : (q : RedisQueue) → Preserves (OnTables Q) (pop q)
  unfolding pop
  pop-OnTables q = search (tables_rules, take_front-OnTables)

  pub publish_task_completed-OnTables :
      (e : TaskCompletedEvent) → Preserves (OnTables Q) (publish_task_completed e)
  unfolding publish_task_completed
  publish_task_completed-OnTables e = search tables_rules

  pub publish_task_terminated-OnTables :
      (e : TaskTerminatedEvent) → Preserves (OnTables Q) (publish_task_terminated e)
  unfolding publish_task_terminated
  publish_task_terminated-OnTables e = search tables_rules

  forward_completed-OnTables :
      (l : List TaskCompletedEvent) → Preserves (OnTables Q) (forward_completed l)
  unfolding forward_completed
  forward_completed-OnTables [] = search tables_rules
  forward_completed-OnTables (e ∷ l) = search tables_rules

  pub receive_completed-OnTables : Preserves (OnTables Q) receive_completed
  unfolding receive_completed
  receive_completed-OnTables = search (tables_rules, forward_completed-OnTables)

  forward_terminated-OnTables :
      (l : List TaskTerminatedEvent) → Preserves (OnTables Q) (forward_terminated l)
  unfolding forward_terminated
  forward_terminated-OnTables [] = search tables_rules
  forward_terminated-OnTables (e ∷ l) = search tables_rules

  pub receive_terminated-OnTables : Preserves (OnTables Q) receive_terminated
  unfolding receive_terminated
  receive_terminated-OnTables = search (tables_rules, forward_terminated-OnTables)

pub ruleset redis_rules = (
  tables_rules, push-OnTables, pop-OnTables, publish_task_completed-OnTables,
  publish_task_terminated-OnTables, receive_completed-OnTables, receive_terminated-OnTables,
)
