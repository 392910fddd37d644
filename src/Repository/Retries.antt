-- ===== src/Repository/Retries.antt =====
-- The retries of a task, and what a worker knows of the row of a task that it fetched.
use go_tempo.Base.{
  ℕ, ◌+◌, ◌≤◌, ◌<◌, ◌≡◌, ◌≢◌, refl, ◌∙◌, Bool, true, false, List, [], ◌∷◌, map, ◌==◌, String, some,
  arith, Bool-cases, inl, inr, All, All-append, ==_iff,
}
use go_tempo.Domain.{Task, TaskStatus, WorkflowExecution}
use go_tempo.External.{External}
use go_tempo.Repository.Dag.{decrement_row, taint_row}
use go_tempo.Repository.Rows.{update_where, count_where, has_version, has_task, with_defaults}
use go_tempo.Repository.Evolution.{
  Closed, ClosedUnder, TaskProgress, RowSteps, progress_steps, IsFresh,
}
use go_tempo.Repository.RowFacts.{RowFact, RowFact-closed}
use go_tempo.Repository.Locks.{IsKeyed, count_where-absent}
use go_tempo.Repository.Keys.{IsKeyed-closed}

-- No task was retried more often than it may be.
abbrev pub IsBounded : List Task → Type 0
IsBounded = All (λ t. t.retry_count ≤ t.max_retries)

-- A row that was once `task`: as long as it has its version, it has its count of retries.
pub record IsLater (task t : Task) : Type 0 where
  pub version : task.version ≤ t.version
  pub max_retries : t.max_retries ≡ task.max_retries
  pub retry_count : t.version ≡ task.version → t.retry_count ≡ task.retry_count

abbrev pub Knows : Task → List WorkflowExecution → List Task → Type 0
Knows task = RowFact task.id (IsLater task)

IsLater-stable : (task t u : Task) → TaskProgress t u → IsLater task t → IsLater task u
IsLater-stable task t u p h = record {
  version = omega (arith, p.version, h.version);
  max_retries = p.max_retries ∙ h.max_retries;
  retry_count = λ e.
      let same : u.version ≡ t.version = omega (arith, p.version, h.version) in
      let before : t.version ≡ task.version = omega (arith, p.version, h.version) in
      p.stamped same ∙ h.retry_count before;
}

pub Knows-closed : (ext : External) (task : Task) → Closed ext (Knows task)
Knows-closed ext task = RowFact-closed task.id (IsLater task) (IsLater-stable task) ext

-- A step of a row that leaves its count of retries.
pub record Quiet (t u : Task) : Type 0 where
  pub progress : TaskProgress t u
  pub retry_count : u.retry_count ≡ t.retry_count

pub Quiet-steps : RowSteps Quiet
unfolding decrement_row taint_row
Quiet-steps = record {
  decrements_row = λ t. record { progress = progress_steps.decrements_row t; retry_count = refl };
  taints_row = λ t. record { progress = progress_steps.taints_row t; retry_count = refl };
  claims_row = λ id worker version t h. record {
    progress = progress_steps.claims_row id worker version t h;
    retry_count = refl;
  };
  settles_row = λ status last_error output t. record {
    progress = progress_steps.settles_row status last_error output t;
    retry_count = refl;
  };
}

Quiet-IsBounded :
    (p : Task → Bool) (f : Task → Task) (ts : List Task)
    → ((t : Task) → p t ≡ true → Quiet t (f t))
    → IsBounded ts
    → IsBounded (update_where p f ts)
unfolding update_where
Quiet-IsBounded p f [] step h = tt
Quiet-IsBounded p f (t ∷ ts) step h =
    let rest = Quiet-IsBounded p f ts step h.1 in
    elim (Bool-cases (p t)) [
      | inl hit ↦
          rw hit
            (omega (arith, (step t hit).retry_count, (step t hit).progress.max_retries, h.0), rest)
      | inr miss ↦ rw miss (h.0, rest)
    ]

fresh-IsBounded : (more : List Task) → All IsFresh more → IsBounded (map with_defaults more)
unfolding with_defaults
fresh-IsBounded [] h = tt
fresh-IsBounded (t ∷ ts) h = (omega (arith, h.0), fresh-IsBounded ts h.1)

-- The keys, the bound, and a fact that is kept in any case.
pub record IsSound {ℓ} (F : List WorkflowExecution → List Task → Type ℓ)
    (es : List WorkflowExecution) (ts : List Task) : Type ℓ where
  pub keyed : IsKeyed ts
  pub bounded : IsBounded ts
  pub fact : F es ts

pub IsSound-closed {ℓ} :
    (ext : External) {F : List WorkflowExecution → List Task → Type ℓ}
    → Closed ext F
    → ClosedUnder ext Quiet (IsSound F)
IsSound-closed ext closed = record {
  on_update = λ p f es ts step q. record {
    keyed = (IsKeyed-closed ext).on_update p f es ts (λ t h. (step t h).progress) q.keyed;
    bounded = Quiet-IsBounded p f ts step q.bounded;
    fact = closed.on_update p f es ts (λ t h. (step t h).progress) q.fact;
  };
  on_status = λ p f es ts step q. record {
    keyed = q.keyed;
    bounded = q.bounded;
    fact = closed.on_status p f es ts step q.fact;
  };
  on_execution = λ e es ts q. record {
    keyed = q.keyed;
    bounded = q.bounded;
    fact = closed.on_execution e es ts q.fact;
  };
  on_insert = λ more es ts fit fresh q. record {
    keyed = (IsKeyed-closed ext).on_insert more es ts fit fresh q.keyed;
    bounded = All-append _ ts (map with_defaults more) q.bounded (fresh-IsBounded more fresh);
    fact = closed.on_insert more es ts fit fresh q.fact;
  };
}

-- What IncrementRetryCount assigns to a row.
abbrev pub retried_row : ℕ → Task → Task
retried_row version t = record t {
  retry_count = t.retry_count + 1;
  status = TaskStatus.pending;
  version = version + 1;
}

-- A worker that may retry the task keeps the bound, by what it knows of the row.
pub retry-IsBounded :
    (task : Task) (ts : List Task)
    → task.retry_count < task.max_retries
    → All (λ t. t.id ≡ task.id → IsLater task t) ts
    → IsBounded ts
    → IsBounded (update_where (has_version task.id task.version) (retried_row task.version) ts)
unfolding update_where
retry-IsBounded task [] lt known h = tt
retry-IsBounded task (t ∷ ts) lt known h =
    let rest = retry-IsBounded task ts lt known.1 h.1 in
    elim (Bool-cases (has_version task.id task.version t)) [
      | inl hit ↦
          let same_id : t.id ≡ task.id = ground arith in
          let same_version : t.version ≡ task.version = ground arith in
          let later = known.0 same_id in
          rw hit (omega (arith, later.retry_count same_version, later.max_retries), rest)
      | inr miss ↦ rw miss (h.0, rest)
    ]

-- What ClaimTask assigns to a row.
abbrev pub claimed_row : (worker : String) → ℕ → Task → Task
claimed_row worker version t = record t {
  status = TaskStatus.running;
  worker_id = some worker;
  version = version + 1;
}

-- The task as the worker has it after its claim.
abbrev pub raised : Task → Task
raised task = record task { version = task.version + 1 }

-- No other row has the id, so nothing is left to know of one.
absent-IsLater :
    (task : Task) (worker : String) (ts : List Task)
    → has_task task.id ts ≡ false
    → All
        (λ t. t.id ≡ task.id → IsLater (raised task) t)
        (update_where (has_version task.id task.version) (claimed_row worker task.version) ts)
unfolding has_task update_where
absent-IsLater task worker [] h = tt
absent-IsLater task worker (t ∷ ts) h =
    ((λ e. absurd (ground arith)), absent-IsLater task worker ts (ground arith))

-- A worker whose claim succeeds knows the row at its new version.
pub claim-IsLater :
    (task : Task) (worker : String) (ts : List Task)
    → IsKeyed ts
    → All (λ t. t.id ≡ task.id → IsLater task t) ts
    → count_where (has_version task.id task.version) ts ≢ 0
    → All
        (λ t. t.id ≡ task.id → IsLater (raised task) t)
        (update_where (has_version task.id task.version) (claimed_row worker task.version) ts)
unfolding has_task update_where count_where
claim-IsLater task worker [] keyed known found = tt
claim-IsLater task worker (t ∷ ts) keyed known found = elim (Bool-cases (t.id == task.id)) [
  | inl mine ↦
      let same_id : t.id ≡ task.id = (==_iff t.id task.id).0 mine in
      let gone : has_task task.id ts ≡ false = rw (← same_id) keyed.0 in
      let later = known.0 same_id in
      elim (Bool-cases (has_version task.id task.version t)) [
        | inl hit ↦
            let same_version : t.version ≡ task.version = ground arith in
            rw hit (
              (λ e. record {
                version = omega arith;
                max_retries = later.max_retries;
                retry_count = λ h. later.retry_count same_version;
              }),
              absent-IsLater task worker ts gone,
            )
        | inr miss ↦
            absurd (found (ground (arith, miss, count_where-absent task.id task.version ts gone)))
      ]
  | inr other ↦ (
    (λ e. absurd (ground arith)),
    claim-IsLater task worker ts keyed.1 known.1 (λ e. found (ground (arith, e))),
  )
]
