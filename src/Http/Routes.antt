-- ===== src/Http/Routes.antt =====
-- The routes of cmd/server/main.go.
use go_tempo.Base.{ℕ, Option, none, some}
use go_tempo.External.{External}
use go_tempo.World.{
  M, Result, ok, err, redis_error, database_error, pure, gets, service, attempt, ◌>>=◌,
}
use go_tempo.Service.{Response, status_created, invalid_request, internal_error, handle_submit}
use go_tempo.Http.Requests.{
  Route, health, readiness, metrics, workflows, Request, Answer, Gin, execution, invalid_json,
  internal, healthy, ready, not_ready, redirected,
}
use go_tempo.Http.Middleware.{prometheus_middleware}

-- What SubmitWorkflow writes.
abbrev pub to_answer : Response → Answer
to_answer (status_created id) = record { status = 201; body = execution id }
to_answer invalid_request = record { status = 500; body = invalid_json }
to_answer (internal_error e) = record { status = 500; body = internal e }

abbrev pub check_database : Result (Unit {0}) → M Answer
check_database (err e) = pure (record { status = 503; body = not_ready "database unavailable" })
check_database (ok _) = pure (record { status = 200; body = ready })

abbrev pub check_redis : Result (Unit {0}) → M Answer
check_redis (err e) = pure (record { status = 503; body = not_ready "redis unavailable" })
check_redis (ok _) = attempt (service database_error) >>= check_database

-- The two pings.
unfoldable pub check_readiness : M Answer
check_readiness = attempt (service redis_error) >>= check_redis

module _ (gin : Gin) (ext : External) (new_id : ℕ → ℕ) where
  unfoldable pub handle_route : Option Route → Request → M Answer
  unfolding check_readiness
  handle_route none request = pure gin.no_route
  handle_route (some health) request = pure (record { status = 200; body = healthy })
  handle_route (some readiness) request = check_readiness
  handle_route (some metrics) request = gets (λ w. gin.exporter w.metrics)
  handle_route (some workflows) request =
      handle_submit ext new_id request.body >>= λ response. pure (to_answer response)

  -- The chain of the middleware and the handler, unless gin redirects.
  abbrev pub serve_unless : Option Answer → Request → M Answer
  serve_unless (some answer) request = pure answer
  serve_unless none request = prometheus_middleware gin request (handle_route request.route request)

  unfoldable pub serve : Request → M Answer
  unfolding handle_route prometheus_middleware
  serve request = serve_unless (redirected gin request) request
