-- ===== src/Samples/Lookups.antt =====
-- The theorems on lookups, requests and collectors at concrete values.
use go_tempo.Base.{if◌then◌else◌, str_eq, ◌≡◌, refl, true, some, none, [], ◌∷◌, ◌++◌, pos}
use go_tempo.World.{World}
use go_tempo.Redis.Queue.{main_queue, retry_queue}
use go_tempo.Service.{handle_submit}
use go_tempo.Http.{Request, Gin, readiness, text}
use go_tempo.Collectors.{queue_depth, db_pool, collect, depth, collect-depth_last}
use go_tempo.Instruments.Calls.{retried}
use go_tempo.Instruments.Declared.{IsDeclared, call_of, in_worker, call_of-IsDeclared}
use go_tempo.Samples.Services.{services}
use go_tempo.Samples.Workflows.{few, offboarding, empty}

abbrev offboarded : World
offboarded = (handle_submit services few (some offboarding) empty).1

abbrev gin : Gin
gin = record {
  size = λ body. pos 2;
  redirect = λ request.
      if str_eq request.url_path "/health/"
      then some (record { status = 301; body = text "" })
      else none;
  no_route = record { status = 404; body = text "404 page not found" };
  exporter = λ ms. record { status = 200; body = text "" };
}

abbrev probe : Request
probe = record {
  method = "GET";
  url_path = "/readiness";
  route = some readiness;
  content_length = pos 0;
  body = none;
}

-- The first ping fails.
abbrev no_redis : World
no_redis = record empty { outages = true ∷ [] }

collect-depth_last_example :
    depth
      (collect
        ((queue_depth main_queue ∷ db_pool 1 2 ∷ []) ++ queue_depth retry_queue ∷ [])
        (record empty { pending = "a" ∷ [] })).1.metrics
    ≡ some 0
collect-depth_last_example =
    collect-depth_last (queue_depth main_queue ∷ db_pool 1 2 ∷ []) retry_queue
      (record empty { pending = "a" ∷ [] }) refl

call_of-IsDeclared_example :
    IsDeclared (call_of (λ n. "3") (in_worker (retried "enroll_benefits" 2)))
call_of-IsDeclared_example = call_of-IsDeclared (λ n. "3") (in_worker (retried "enroll_benefits" 2))
