-- ===== src/Http/Requests.antt =====
-- What gin hands to the middleware and the handlers, and what they answer.
use go_tempo.Base.{ℕ, ℤ, String, List, Option, none, some}
use go_tempo.World.{Error, Metric}
use go_tempo.Mapper.{CreateWorkflowRequest}

-- The routes that main registers.
pub data Route : Type 0 where
  health readiness metrics workflows : Route

-- `route` is the one that gin finds for the method and the path, `body` what ShouldBindJSON reads.
pub record Request : Type 0 where
  pub method : String
  pub url_path : String
  pub route : Option Route
  pub content_length : ℤ
  pub body : Option CreateWorkflowRequest

pub data Body : Type 0 where
  execution : (id : ℕ) → Body
  invalid_json healthy ready : Body
  internal : Error → Body
  not_ready : (error : String) → Body
  text : String → Body

pub record Answer : Type 0 where
  pub status : ℕ
  pub body : Body

-- What gin and promhttp do: the number of bytes that are written for a body, the answer to a request
-- with no route, the page of the metrics, and the redirect, if there is one, that gin answers by
-- itself to a request with no route, such as one whose path has a slash too many at its end. A
-- redirect runs neither the middleware nor a handler.
pub record Gin : Type 0 where
  pub size : Body → ℤ
  pub no_route : Answer
  pub redirect : Request → Option Answer
  pub exporter : List Metric → Answer

-- The redirect instead of a route.
abbrev pub redirect_of : Option Route → Option Answer → Option Answer
redirect_of none o = o
redirect_of (some route) o = none

abbrev pub redirected : Gin → Request → Option Answer
redirected gin request = redirect_of request.route (gin.redirect request)

abbrev pub pattern : Route → String
pattern health = "/health"
pattern readiness = "/readiness"
pattern metrics = "/metrics"
pattern workflows = "/api/v1/workflows"

-- FullPath of the context.
abbrev pub full_path : Option Route → String
full_path none = ""
full_path (some route) = pattern route
