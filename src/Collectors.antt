-- ===== src/Collectors.antt =====
-- internal/metrics/collector.go: what happens at each tick of a collector's timer.
use go_tempo.Base.{ℕ, ◌≡◌, refl, sym, List, [], ◌∷◌, ◌++◌, Option, none, some, length}
use go_tempo.World.{
  World, M, Metric, Result, ok, err, redis_error, pure, gets, inc, service, attempt, ◌>>=◌, ◌>>◌,
  replies, service-calm, redis_connection_errors, redis_queue_depth, db_connection_pool_size,
}
use go_tempo.Redis.Queue.{RedisQueue, main_queue, retry_queue, items}

abbrev pub set_depth : Result ℕ → M (Unit {0})
set_depth (err e) = inc (redis_connection_errors "llen")
set_depth (ok n) = inc (redis_queue_depth n)

unfoldable pub collect_queue_depth : RedisQueue → M (Unit {0})
collect_queue_depth q = do
  length ← attempt (service redis_error >> gets (λ w. length (items q w)))
  set_depth length

-- The statistics are those of database/sql.
unfoldable pub collect_db_pool : (idle in_use : ℕ) → M (Unit {0})
collect_db_pool idle in_use = do
  inc (db_connection_pool_size "idle" idle)
  inc (db_connection_pool_size "in_use" in_use)

-- The ticks of the three collectors that main starts.
pub data Tick : Type 0 where
  queue_depth : RedisQueue → Tick
  db_pool : (idle in_use : ℕ) → Tick

unfoldable pub collect : List Tick → M (Unit {0})
unfolding collect_queue_depth collect_db_pool
collect [] = pure tt
collect (queue_depth q ∷ ticks) = collect_queue_depth q >> collect ticks
collect (db_pool idle in_use ∷ ticks) = collect_db_pool idle in_use >> collect ticks

-- The value of the gauge redis_queue_depth, if it was ever set.
abbrev pub depth : List Metric → Option ℕ
depth [] = none
depth (redis_queue_depth n ∷ ms) = some n
depth (_ ∷ ms) = depth ms

items-metrics :
    (q : RedisQueue) (w : World) (ms : List Metric)
    → items q (record w { metrics = ms }) ≡ items q w
items-metrics main_queue w ms = refl
items-metrics retry_queue w ms = refl

collect_queue_depth-calm :
    (q : RedisQueue) (w : World)
    → w.outages ≡ []
    → collect_queue_depth q w
      ≡ (ok tt, record w { metrics = redis_queue_depth (length (items q w)) ∷ w.metrics })
unfolding collect_queue_depth replies
collect_queue_depth-calm q w calm = rw (service-calm redis_error w calm) refl

-- With a Redis that answers, after any ticks of the collectors the gauge of the queue depth has the
-- length of the list that was looked at last, whichever of the two lists that is.
pub collect-depth_last :
    (ticks : List Tick) (q : RedisQueue) (w : World)
    → w.outages ≡ []
    → depth (collect (ticks ++ queue_depth q ∷ []) w).1.metrics ≡ some (length (items q w))
unfolding collect collect_db_pool replies
collect-depth_last [] q w calm = rw (collect_queue_depth-calm q w calm) refl
collect-depth_last (queue_depth p ∷ ticks) q w calm =
    let ms = redis_queue_depth (length (items p w)) ∷ w.metrics in
    rw (collect_queue_depth-calm p w calm, sym (items-metrics q w ms))
      (collect-depth_last ticks q (record w { metrics = ms }) calm)
collect-depth_last (db_pool idle in_use ∷ ticks) q w calm =
    let ms =
      db_connection_pool_size "in_use" in_use ∷ db_connection_pool_size "idle" idle ∷ w.metrics in
    rw (sym (items-metrics q w ms)) (collect-depth_last ticks q (record w { metrics = ms }) calm)
