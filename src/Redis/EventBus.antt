-- ===== src/Redis/EventBus.antt =====
-- internal/infrastructure/redis/event_bus.go. A channel holds what was published and not yet
-- received; the JSON text of an event is written and read by the same struct tags, and left out.
use go_tempo.Base.{List, [], ◌∷◌, ◌++◌, Option, none, some}
use go_tempo.Domain.{TaskCompletedEvent, TaskTerminatedEvent}
use go_tempo.World.{
  M, redis_error, pure, gets, write_completed, write_terminated, inc, service, ◌>>=◌, ◌>>◌,
  on_error, redis_connection_errors, redis_messages_published, redis_messages_received,
}

unfoldable pub publish_task_completed : TaskCompletedEvent → M (Unit {0})
publish_task_completed event = do
  on_error (service redis_error) (inc (redis_connection_errors "publish"))
  write_completed (λ waiting. waiting ++ event ∷ [])
  inc (redis_messages_published "completed")

unfoldable pub publish_task_terminated : TaskTerminatedEvent → M (Unit {0})
publish_task_terminated event = do
  on_error (service redis_error) (inc (redis_connection_errors "publish"))
  write_terminated (λ waiting. waiting ++ event ∷ [])
  inc (redis_messages_published "terminated")

-- One round of the goroutine of SubscribeToEvents: `none` if nothing is sent on in it.
unfoldable pub forward_completed : List TaskCompletedEvent → M (Option TaskCompletedEvent)
forward_completed [] = pure none
forward_completed (event ∷ later) = do
  write_completed (λ _. later)
  inc (redis_messages_received "completed")
  pure (some event)

unfoldable pub receive_completed : M (Option TaskCompletedEvent)
receive_completed = do
  on_error (service redis_error) (inc (redis_connection_errors "subscribe"))
  waiting ← gets (λ w. w.completed)
  forward_completed waiting

-- The same for SubscribeToTerminationEvents.
unfoldable pub forward_terminated : List TaskTerminatedEvent → M (Option TaskTerminatedEvent)
forward_terminated [] = pure none
forward_terminated (event ∷ later) = do
  write_terminated (λ _. later)
  inc (redis_messages_received "terminated")
  pure (some event)

unfoldable pub receive_terminated : M (Option TaskTerminatedEvent)
receive_terminated = do
  on_error (service redis_error) (inc (redis_connection_errors "subscribe"))
  waiting ← gets (λ w. w.terminated)
  forward_terminated waiting
