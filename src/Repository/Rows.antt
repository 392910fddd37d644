-- ===== src/Repository/Rows.antt =====
-- What the SQL statements of the repositories do to a table.
use go_tempo.Base.{ℕ, ◌+◌, Bool, true, false, ◌&&◌, ◌||◌, not, List, [], ◌∷◌, ◌==◌, if◌then◌else◌}
use go_tempo.Domain.{Task, WorkflowExecution}

module _ {ℓ} {A : Type ℓ} where
  -- UPDATE … SET f WHERE p
  unfoldable pub update_where : (A → Bool) → (A → A) → List A → List A
  update_where p f [] = []
  update_where p f (x ∷ xs) = (if p x then f x else x) ∷ update_where p f xs

  -- How many rows satisfy the condition.
  unfoldable pub count_where : (A → Bool) → List A → ℕ
  count_where p [] = 0
  count_where p (x ∷ xs) = (if p x then 1 else 0) + count_where p xs

-- The condition `id = ? AND version = ?`.
abbrev pub has_version : (id version : ℕ) → Task → Bool
has_version id version t = t.id == id && t.version == version

-- The column tags of domain.Task: a zero value takes the column's default. The other columns with
-- a default have it already, or their default is the zero value.
unfoldable pub with_defaults : Task → Task
with_defaults t = record t {
  max_retries = if t.max_retries == 0 then 3 else t.max_retries;
  version = if t.version == 0 then 1 else t.version;
}

unfoldable pub has_task : ℕ → List Task → Bool
has_task id [] = false
has_task id (t ∷ ts) = t.id == id || has_task id ts

unfoldable pub has_execution : ℕ → List WorkflowExecution → Bool
has_execution id [] = false
has_execution id (e ∷ es) = e.id == id || has_execution id es

-- May the rows be added, by the primary key and by a constraint on each?
unfoldable pub fits : (Task → Bool) → List Task → List Task → Bool
unfolding has_task
fits accepts table [] = true
fits accepts table (t ∷ ts) = not (has_task t.id table) && accepts t && fits accepts (t ∷ table) ts
