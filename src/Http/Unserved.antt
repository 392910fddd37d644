-- ===== src/Http/Unserved.antt =====
-- What the handlers do counts no request.
use go_tempo.Base.{ℕ, suc, ◌≡◌, Bool, true, false, List, [], ◌∷◌, String, Option, none, some}
use go_tempo.Domain.{Task, WorkflowExecution}
use go_tempo.External.{External}
use go_tempo.World.{
  World, M, Error, Result, ok, err, Metric, Preserves, preserves_rules, bind-Preserves, inc, poll,
  service, ◌>>◌, database_error, write_tasks, write_executions, write_pending, write_retry,
  http_requests_total,
}
use go_tempo.Repository.Tasks.{
  transaction, rolled_back, insert_execution, add_fitting, insert_tasks, create_execution,
}
use go_tempo.Redis.Queue.{RedisQueue, main_queue, retry_queue, push}
use go_tempo.Mapper.{CreateWorkflowRequest}
use go_tempo.Service.{enqueue_root_tasks, submit_workflow, answer, handle_submit}
use go_tempo.Http.Requests.{Route, health, readiness, metrics, workflows, Request, Gin}
use go_tempo.Http.Routes.{check_database, check_redis, check_readiness, handle_route}

abbrev pub is_request : Metric → Bool
is_request (http_requests_total method endpoint status) = true
is_request _ = false

-- How many requests are counted.
abbrev pub served : List Metric → ℕ
served [] = 0
served (m ∷ ms) = elim (is_request m) [ true ↦ suc (served ms) | false ↦ served ms ]

pub record Served (n : ℕ) (w : World) : Type 0 where
  pub count : served w.metrics ≡ n

module _ {n : ℕ} where
  pub inc-Served : (m : Metric) → is_request m ≡ false → Preserves (Served n) (inc m)
  unfolding inc
  inc-Served m other = record { keep = λ w s. record { count = rw (other, served) s.count } }

  poll-Served : (e : Error) (later : List Bool) → Preserves (Served n) (poll e later)
  unfolding poll
  poll-Served e [] = record { keep = λ w s. s }
  poll-Served e (true ∷ later) = record { keep = λ w s. record { count = s.count } }
  poll-Served e (false ∷ later) = record { keep = λ w s. record { count = s.count } }

  pub service-Served : (e : Error) → Preserves (Served n) (service e)
  unfolding service
  service-Served e = record { keep = λ w s. (poll-Served e w.outages).keep w s }

  write_tasks-Served : (f : List Task → List Task) → Preserves (Served n) (write_tasks f)
  unfolding write_tasks
  write_tasks-Served f = record { keep = λ w s. record { count = s.count } }

  write_executions-Served :
      (f : List WorkflowExecution → List WorkflowExecution)
      → Preserves (Served n) (write_executions f)
  unfolding write_executions
  write_executions-Served f = record { keep = λ w s. record { count = s.count } }

  write_pending-Served : (f : List String → List String) → Preserves (Served n) (write_pending f)
  unfolding write_pending
  write_pending-Served f = record { keep = λ w s. record { count = s.count } }

  write_retry-Served : (f : List String → List String) → Preserves (Served n) (write_retry f)
  unfolding write_retry
  write_retry-Served f = record { keep = λ w s. record { count = s.count } }

ruleset served_rules = (
  preserves_rules, inc-Served, service-Served, write_tasks-Served, write_executions-Served,
  write_pending-Served, write_retry-Served,
)

module _ {n : ℕ} where
  rolled_back-Served :
      {A : Type 0} (r : Result A) (v w : World) → Served n w → Served n (rolled_back v (r, w)).1
  rolled_back-Served (ok a) v w s = s
  rolled_back-Served (err e) v w s = record { count = s.count }

  transaction-Served :
      (body : M Unit) → Preserves (Served n) body → Preserves (Served n) (transaction body)
  unfolding transaction
  transaction-Served body p =
      let committed : Preserves (Served n) (body >> service database_error) =
        search (served_rules, p) in
      record {
        keep = λ w s.
            rolled_back-Served ((body >> service database_error) w).0 w
              ((body >> service database_error) w).1 (committed.keep w s);
      }

  push-Served : (q : RedisQueue) (task_id : String) → Preserves (Served n) (push q task_id)
  unfolding push
  push-Served main_queue task_id = search served_rules depth 9
  push-Served retry_queue task_id = search served_rules depth 9

  module _ (ext : External) where
    insert_execution-Served :
        (e : WorkflowExecution) → Preserves (Served n) (insert_execution ext e)
    unfolding insert_execution
    insert_execution-Served e = search served_rules depth 9

    insert_tasks-Served : (ts : List Task) → Preserves (Served n) (insert_tasks ext ts)
    unfolding insert_tasks add_fitting
    insert_tasks-Served ts = search served_rules depth 9

    create_execution-Served :
        (e : WorkflowExecution) (ts : List Task) → Preserves (Served n) (create_execution ext e ts)
    unfolding create_execution
    create_execution-Served e ts =
        search (served_rules, transaction-Served, insert_execution-Served, insert_tasks-Served)
          depth 9

    enqueue_root_tasks-Served :
        (q : RedisQueue) (ts : List Task) → Preserves (Served n) (enqueue_root_tasks ext q ts)
    unfolding enqueue_root_tasks
    enqueue_root_tasks-Served q [] = search served_rules
    enqueue_root_tasks-Served q (t ∷ ts) =
        bind-Preserves _ _ (search (served_rules, push-Served))
          (λ _. enqueue_root_tasks-Served q ts)

    submit_workflow-Served :
        (q : RedisQueue) (e : WorkflowExecution) (ts : List Task)
        → Preserves (Served n) (submit_workflow ext q e ts)
    unfolding submit_workflow
    submit_workflow-Served q e ts =
        search (served_rules, create_execution-Served, enqueue_root_tasks-Served)

    answer-Served : (r : Result ℕ) → Preserves (Served n) (answer r)
    answer-Served (ok id) = search served_rules
    answer-Served (err e) = search served_rules

    handle_submit-Served :
        (new_id : ℕ → ℕ) (o : Option CreateWorkflowRequest)
        → Preserves (Served n) (handle_submit ext new_id o)
    unfolding handle_submit
    handle_submit-Served new_id none = search served_rules
    handle_submit-Served new_id (some req) =
        search (served_rules, submit_workflow-Served, answer-Served)

    check_database-Served : (r : Result Unit) → Preserves (Served n) (check_database r)
    check_database-Served (ok a) = search served_rules
    check_database-Served (err e) = search served_rules

    check_redis-Served : (r : Result Unit) → Preserves (Served n) (check_redis r)
    check_redis-Served (ok a) = search (served_rules, check_database-Served)
    check_redis-Served (err e) = search served_rules

    pub handle_route-Served :
        (gin : Gin) (new_id : ℕ → ℕ) (route : Option Route) (request : Request)
        → Preserves (Served n) (handle_route gin ext new_id route request)
    unfolding handle_route check_readiness
    handle_route-Served gin new_id none request = search served_rules
    handle_route-Served gin new_id (some health) request = search served_rules
    handle_route-Served gin new_id (some readiness) request =
        search (served_rules, check_redis-Served)
    handle_route-Served gin new_id (some metrics) request = search served_rules
    handle_route-Served gin new_id (some workflows) request =
        search (served_rules, handle_submit-Served)
