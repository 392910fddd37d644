-- ===== src/Repository/Evolution/Rules.antt =====
-- The order in which the rows of the two tables evolve.
use go_tempo.Base.{
  ◌≤◌, ◌≡◌, refl, ◌∙◌, Bool, true, List, [], ◌∷◌, ◌++◌, ◌≤ℤ◌, ≤ℤ_refl, ≤ℤ_trans, arith, Bool-cases,
  inl, inr,
}
use go_tempo.Domain.{Task, WorkflowExecution, WorkflowStatus}
use go_tempo.Repository.Rows.{update_where}

-- The later list has the rows of the earlier one, each evolved, and perhaps more.
abbrev pub Evolves {ℓ} : {A : Type ℓ} → (A → A → Type 0) → List A → List A → Type 0
Evolves R [] ys = Unit
Evolves R (x ∷ xs) [] = ⊥
Evolves R (x ∷ xs) (y ∷ ys) = R x y × Evolves R xs ys

module _ {ℓ} {A : Type ℓ} (R : A → A → Type 0) where
  pub Evolves-refl : ((x : A) → R x x) → (xs : List A) → Evolves R xs xs
  Evolves-refl r [] = tt
  Evolves-refl r (x ∷ xs) = (r x, Evolves-refl r xs)

  pub Evolves-append : (xs ys zs : List A) → Evolves R xs ys → Evolves R xs (ys ++ zs)
  Evolves-append [] ys zs h = tt
  Evolves-append (x ∷ xs) [] zs h = absurd h
  Evolves-append (x ∷ xs) (y ∷ ys) zs h = (h.0, Evolves-append xs ys zs h.1)

  -- An UPDATE evolves the table if it evolves each row that it changes.
  pub Evolves-update_where :
      ((x y z : A) → R x y → R y z → R x z)
      → (p : A → Bool) (f : A → A) → ((y : A) → p y ≡ true → R y (f y))
      → (xs ys : List A) → Evolves R xs ys
      → Evolves R xs (update_where p f ys)
  unfolding update_where
  Evolves-update_where trans p f step [] ys h = tt
  Evolves-update_where trans p f step (x ∷ xs) [] h = absurd h
  Evolves-update_where trans p f step (x ∷ xs) (y ∷ ys) h =
      let rest = Evolves-update_where trans p f step xs ys h.1 in
      elim (Bool-cases (p y)) [
        | inl hit ↦ rw hit (trans x y (f y) h.0 (step y hit), rest)
        | inr miss ↦ rw miss (h.0, rest)
      ]

-- What no action undoes in a row of tasks.
pub record TaskProgress (t u : Task) : Type 0 where
  pub id : u.id ≡ t.id
  pub execution_id : u.execution_id ≡ t.execution_id
  pub ref_id : u.ref_id ≡ t.ref_id
  pub action : u.action ≡ t.action
  pub dependencies : u.dependencies ≡ t.dependencies
  pub input : u.input ≡ t.input
  pub max_retries : u.max_retries ≡ t.max_retries
  pub version : t.version ≤ u.version
  pub retry_count : t.retry_count ≤ u.retry_count
  -- A row that is retried gets a new version.
  pub stamped : u.version ≡ t.version → u.retry_count ≡ t.retry_count
  pub skip_hint : t.skip_hint ≡ true → u.skip_hint ≡ true
  pub in_degree : u.in_degree ≤ℤ t.in_degree

pub TaskProgress-refl : (t : Task) → TaskProgress t t
TaskProgress-refl t = record {
  id = refl;
  execution_id = refl;
  ref_id = refl;
  action = refl;
  dependencies = refl;
  input = refl;
  max_retries = refl;
  version = omega arith;
  retry_count = omega arith;
  stamped = λ h. refl;
  skip_hint = λ h. h;
  in_degree = ≤ℤ_refl t.in_degree;
}

pub TaskProgress-trans : (t u v : Task) → TaskProgress t u → TaskProgress u v → TaskProgress t v
TaskProgress-trans t u v p q = record {
  id = q.id ∙ p.id;
  execution_id = q.execution_id ∙ p.execution_id;
  ref_id = q.ref_id ∙ p.ref_id;
  action = q.action ∙ p.action;
  dependencies = q.dependencies ∙ p.dependencies;
  input = q.input ∙ p.input;
  max_retries = q.max_retries ∙ p.max_retries;
  version = omega (arith, p.version, q.version);
  retry_count = omega (arith, p.retry_count, q.retry_count);
  stamped = λ h.
      let middle : u.version ≡ t.version = omega (arith, p.version, q.version) in
      let last : v.version ≡ u.version = omega (arith, p.version, q.version) in
      q.stamped last ∙ p.stamped middle;
  skip_hint = λ h. q.skip_hint (p.skip_hint h);
  in_degree = ≤ℤ_trans v.in_degree u.in_degree t.in_degree q.in_degree p.in_degree;
}

-- What no action undoes in a row of workflow_executions.
pub record ExecutionProgress (e f : WorkflowExecution) : Type 0 where
  pub id : f.id ≡ e.id
  pub user_id : f.user_id ≡ e.user_id
  pub workflow_type : f.workflow_type ≡ e.workflow_type
  pub failed : e.status ≡ WorkflowStatus.failed → f.status ≡ WorkflowStatus.failed

pub ExecutionProgress-refl : (e : WorkflowExecution) → ExecutionProgress e e
ExecutionProgress-refl e = record {
  id = refl;
  user_id = refl;
  workflow_type = refl;
  failed = λ h. h;
}

pub ExecutionProgress-trans :
    (e f g : WorkflowExecution)
    → ExecutionProgress e f
    → ExecutionProgress f g
    → ExecutionProgress e g
ExecutionProgress-trans e f g p q = record {
  id = q.id ∙ p.id;
  user_id = q.user_id ∙ p.user_id;
  workflow_type = q.workflow_type ∙ p.workflow_type;
  failed = λ h. q.failed (p.failed h);
}

-- The tables evolve from the given ones.
pub record TablesEvolve (es₀ : List WorkflowExecution) (ts₀ : List Task)
    (es : List WorkflowExecution) (ts : List Task) : Type 0 where
  pub executions : Evolves ExecutionProgress es₀ es
  pub tasks : Evolves TaskProgress ts₀ ts

pub TablesEvolve-refl : (es : List WorkflowExecution) (ts : List Task) → TablesEvolve es ts es ts
TablesEvolve-refl es ts = record {
  executions = Evolves-refl ExecutionProgress ExecutionProgress-refl es;
  tasks = Evolves-refl TaskProgress TaskProgress-refl ts;
}
