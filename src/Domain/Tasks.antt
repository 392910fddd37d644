-- ===== src/Domain/Tasks.antt =====
-- internal/domain/task.go
use go_tempo.Base.{ℕ, Bool, true, false, List, String, Option, none, ℤ, pos, ltb}

pub data TaskStatus : Type 0 where
  pending queued running completed failed skipped : TaskStatus

-- A datatypes.JSON column. `absent` is the nil slice (SQL NULL) and `null_value` the JSON null;
-- `strings` is an array of texts, as json.Marshal writes one, and `raw` is text given as it stands.
pub data Json : Type 0 where
  absent null_value : Json
  strings : List String → Json
  raw : String → Json

pub record Task : Type 0 where
  pub id : ℕ
  pub execution_id : ℕ
  pub ref_id : String
  pub action : String
  pub status : TaskStatus
  pub retry_count : ℕ
  pub max_retries : ℕ
  pub last_error : String
  pub dependencies : Json
  pub in_degree : ℤ
  pub skip_hint : Bool
  pub worker_id : Option String
  pub version : ℕ
  pub input : Json
  pub output : Json

-- `id` is what uuid.New returns.
unfoldable pub new_task : (id execution_id : ℕ) (ref_id action : String) → Task
new_task id execution_id ref_id action = record {
  id = id;
  execution_id = execution_id;
  ref_id = ref_id;
  action = action;
  status = pending;
  retry_count = 0;
  max_retries = 0;
  last_error = "";
  dependencies = absent;
  in_degree = pos 0;
  skip_hint = false;
  worker_id = none;
  version = 1;
  input = absent;
  output = absent;
}

unfoldable pub can_retry : Task → ℕ → Bool
can_retry t max_retry = ltb t.retry_count max_retry

pub TaskStatus-discrete : Discrete TaskStatus
TaskStatus-discrete = hlevel

-- The status test that a query makes.
unfoldable pub is_completed : TaskStatus → Bool
is_completed completed = true
is_completed _ = false
