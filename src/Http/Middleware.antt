-- ===== src/Http/Middleware.antt =====
-- internal/api/middleware/prometheus.go
use go_tempo.Base.{zero, suc, ℤ, pos, negsuc, Bool, true, false, String, str_eq, if◌then◌else◌}
use go_tempo.World.{
  M, pure, inc, ◌>>=◌, ◌>>◌, http_requests_total, http_request_size, http_response_size,
}
use go_tempo.Http.Requests.{Request, Answer, Gin, full_path}

abbrev pub is_positive : ℤ → Bool
is_positive (pos zero) = false
is_positive (pos (suc n)) = true
is_positive (negsuc n) = false

unfoldable pub endpoint : Request → String
endpoint request =
    if str_eq (full_path request.route) "" then request.url_path else full_path request.route

-- `next` is the rest of the chain of handlers.
unfoldable pub prometheus_middleware : Gin → Request → (next : M Answer) → M Answer
prometheus_middleware gin request next = do
  let path = endpoint request
  if is_positive request.content_length
      then inc (http_request_size request.method path request.content_length)
      else pure tt
  answer ← next
  inc (http_requests_total request.method path answer.status)
  inc (http_response_size request.method path (gin.size answer.body))
  pure answer
