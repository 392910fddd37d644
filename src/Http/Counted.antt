-- ===== src/Http/Counted.antt =====
-- Every request is answered and counted.
use go_tempo.Base.{ℕ, ◌≡◌, List, ◌∷◌, if◌then◌else◌}
use go_tempo.External.{External}
use go_tempo.World.{
  World, M, ok, Metric, http_requests_total, http_request_size, http_response_size,
}
use go_tempo.Http.Requests.{metrics, Request, Answer, Gin}
use go_tempo.Http.Middleware.{endpoint, is_positive}
use go_tempo.Http.Routes.{handle_route, serve}
use go_tempo.Http.Unserved.{served}

-- An action that does not fail.
abbrev Returns : {A : Type 0} → M A → Type 0
Returns {A} m = (w : World) → (a : A) × ((m w).0 ≡ ok a)

module _ (gin : Gin) (ext : External) (new_id : ℕ → ℕ) where
  -- The world that the route's handler sees.
  abbrev pub measured : Request → World → World
  measured request w =
      if is_positive request.content_length
      then record w {
        metrics =
            http_request_size request.method (endpoint request) request.content_length ∷ w.metrics;
      }
      else w

  -- The request is answered by its route's handler, and is counted once.
  abbrev pub IsCountedOnce : Request → World → Type 0
  IsCountedOnce request w =
      (a : Answer) × (older : List Metric) × ((serve gin ext new_id request w).0 ≡ ok a)
      × ((handle_route gin ext new_id request.route request (measured request w)).0 ≡ ok a)
      × ((serve gin ext new_id request w).1.metrics
          ≡ http_response_size request.method (endpoint request) (gin.size a.body)
            ∷ http_requests_total request.method (endpoint request) a.status
            ∷ older)
      × (served older ≡ served w.metrics)
