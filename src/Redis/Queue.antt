-- ===== src/Redis/Queue.antt =====
-- internal/infrastructure/redis/queue.go, for the two lists that cmd/server/main.go creates.
use go_tempo.Base.{List, [], ◌∷◌, ◌++◌, String}
use go_tempo.World.{
  World, M, redis_error, blocked, pure, throw, gets, write_pending, write_retry, inc, service,
  ◌>>=◌, ◌>>◌, on_error, redis_queue_push, redis_connection_errors,
}

-- `main_queue` is workflow:queue:pending, `retry_queue` is workflow:queue:retry.
pub data RedisQueue : Type 0 where
  main_queue retry_queue : RedisQueue

abbrev pub items : RedisQueue → World → List String
items main_queue w = w.pending
items retry_queue w = w.retry

abbrev pub write_items : RedisQueue → (List String → List String) → M (Unit {0})
write_items main_queue f = write_pending f
write_items retry_queue f = write_retry f

-- RPush
unfoldable pub push : RedisQueue → (task_id : String) → M (Unit {0})
push q task_id = do
  on_error (service redis_error)
      (inc (redis_queue_push "error") >> inc (redis_connection_errors "push"))
  write_items q (λ waiting. waiting ++ task_id ∷ [])
  inc (redis_queue_push "success")

-- BLPop with no time limit: on an empty list the call waits, so the world stays as it is.
unfoldable pub take_front : RedisQueue → List String → M String
take_front q [] = throw blocked
take_front q (task_id ∷ later) = do write_items q (λ _. later); pure task_id

unfoldable pub pop : RedisQueue → M String
pop q = do
  on_error (service redis_error) (inc (redis_connection_errors "pop"))
  front ← gets (items q)
  take_front q front
