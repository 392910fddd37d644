-- ===== src/External.antt =====
-- What the program takes from outside: google/uuid's text form, and what PostgreSQL's jsonb and the
-- tables' own constraints do with a value.
use Prim.Native.Char.{code}
use Prim.Native.String.{◌++◌ as ◌+++◌}
use go_tempo.Base.{ℕ, ◌<◌, ◌≡◌, ◌≢◌, Bool, true, false, List, String, Option, some, has}
use go_tempo.Domain.{Task, WorkflowExecution, Json, null_value, absent, strings}

pub record External : Type 0 where
  -- uuid.UUID.String and uuid.Parse
  pub uuid_string : ℕ → String
  pub uuid_parse : String → Option ℕ
  -- Is the text valid input for a jsonb value?
  pub jsonb_valid : String → Bool
  -- `column @> text`, for a text that is valid
  pub jsonb_contains : Json → String → Bool
  -- Constraints of the tables other than the primary keys: lengths, NOT NULL, foreign keys.
  pub accepts_task : Task → Bool
  pub accepts_execution : WorkflowExecution → Bool

-- fmt.Sprintf(`["%s"]`, ref) and "[\"" + ref + "\"]"
abbrev pub dep_param : String → String
dep_param ref_id = ("[\"" +++ ref_id) +++ "\"]"

-- `{"error":"` + message + `"}`
abbrev pub error_output : String → String
error_output message = ("{\"error\":\"" +++ message) +++ "\"}"

abbrev pub skipped_output : String
skipped_output = "{\"skipped\": true, \"reason\": \"parent task failed\"}"

-- No character of the text needs an escape in a JSON string: no control character, quote, backslash.
abbrev pub IsPlain : String → Type 0
IsPlain String.[] = Unit
IsPlain (String.◌∷◌ c s) = (31 < code c) × (code c ≢ 34) × (code c ≢ 92) × IsPlain s

-- The documented behaviour that the program relies on.
pub record Documented (ext : External) : Type 0 where
  pub parse-string : (u : ℕ) → ext.uuid_parse (ext.uuid_string u) ≡ some u
  pub valid-dep : (r : String) → IsPlain r → ext.jsonb_valid (dep_param r) ≡ true
  pub valid-error : (m : String) → IsPlain m → ext.jsonb_valid (error_output m) ≡ true
  pub valid-skipped : ext.jsonb_valid skipped_output ≡ true
  -- An array contains the array of one text exactly if that text is among its elements.
  pub contains-strings :
      (ds : List String) (r : String)
      → IsPlain r
      → ext.jsonb_contains (strings ds) (dep_param r) ≡ has r ds
  pub contains-null : (r : String) → ext.jsonb_contains null_value (dep_param r) ≡ false
  pub contains-absent : (r : String) → ext.jsonb_contains absent (dep_param r) ≡ false
