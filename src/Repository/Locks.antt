-- ===== src/Repository/Locks.antt =====
-- The optimistic lock: a version of a row is claimed or retried at most once.
use go_tempo.Base.{
  ℕ, ◌+◌, ◌<◌, ◌≡◌, ◌≢◌, refl, true, false, List, [], ◌∷◌, String, some, ◌==◌, arith, Bool-cases,
  inl, inr, All, ==_iff,
}
use go_tempo.Domain.{Task, TaskStatus, WorkflowExecution}
use go_tempo.External.{External}
use go_tempo.World.{World, ok, actions}
use go_tempo.Repository.Rows.{update_where, count_where, has_version, has_task}
use go_tempo.Repository.Tasks.{claim_task, update_tasks}
use go_tempo.Repository.Evolution.{Closed}
use go_tempo.Repository.RowFacts.{RowFact, RowFact-closed}

-- The primary key: no two rows have the same id.
abbrev pub IsKeyed : List Task → Type 0
IsKeyed [] = Unit
IsKeyed (t ∷ ts) = (has_task t.id ts ≡ false) × IsKeyed ts

-- The row exists, and its version has passed `v`.
abbrev pub IsSpent : (id v : ℕ) → List WorkflowExecution → List Task → Type 0
IsSpent id v = RowFact id (λ t. v < t.version)

module _ (id v : ℕ) where
  -- The condition of a claim holds for no row.
  pub count_where-IsSpent :
      (ts : List Task)
      → All (λ t. t.id ≡ id → v < t.version) ts
      → count_where (has_version id v) ts ≡ 0
  unfolding count_where
  count_where-IsSpent [] h = refl
  count_where-IsSpent (t ∷ ts) h = ground (arith, h.0, count_where-IsSpent ts h.1)

  -- So it changes none.
  pub update_where-IsSpent :
      (f : Task → Task) (ts : List Task)
      → All (λ t. t.id ≡ id → v < t.version) ts
      → update_where (has_version id v) f ts ≡ ts
  unfolding update_where
  update_where-IsSpent f [] h = refl
  update_where-IsSpent f (t ∷ ts) h = ground (arith, h.0, update_where-IsSpent f ts h.1)

  pub IsSpent-closed : (ext : External) → Closed ext (IsSpent id v)
  IsSpent-closed = RowFact-closed id (λ t. v < t.version) (λ t u p lt. omega (arith, p.version))

  pub count_where-absent :
      (ts : List Task) → has_task id ts ≡ false → count_where (has_version id v) ts ≡ 0
  unfolding has_task count_where
  count_where-absent [] h = refl
  count_where-absent (t ∷ ts) h = ground (arith, count_where-absent ts)

  above-absent :
      (f : Task → Task) (ts : List Task)
      → has_task id ts ≡ false
      → All (λ t. t.id ≡ id → v < t.version) (update_where (has_version id v) f ts)
  unfolding has_task update_where
  above-absent f [] h = tt
  above-absent f (t ∷ ts) h = ((λ e. ground arith), above-absent f ts (ground arith))

  -- An UPDATE that finds the row, and raises its version, spends the version.
  pub update_where-above :
      (f : Task → Task)
      → ((t : Task) → (f t).version ≡ v + 1)
      → (ts : List Task) → IsKeyed ts
      → count_where (has_version id v) ts ≢ 0
      → All (λ t. t.id ≡ id → v < t.version) (update_where (has_version id v) f ts)
  unfolding has_task update_where count_where
  update_where-above f raised [] keyed found = tt
  update_where-above f raised (t ∷ ts) keyed found = elim (Bool-cases (t.id == id)) [
    | inl hit ↦
        let gone : has_task id ts ≡ false = rw (← (==_iff t.id id).0 hit) keyed.0 in
        ((λ e. ground (arith, raised t, count_where-absent ts gone)), above-absent f ts gone)
    | inr miss ↦ (
      (λ e. ground arith),
      update_where-above f raised ts keyed.1 (λ e. found (ground (arith, e))),
    )
  ]

  pub has_task-count_where :
      (ts : List Task) → count_where (has_version id v) ts ≢ 0 → has_task id ts ≡ true
  unfolding has_task count_where
  has_task-count_where [] h = absurd (h refl)
  has_task-count_where (t ∷ ts) h = ground (arith, has_task-count_where ts)

-- What a claim that succeeds did.
pub claim_task-eq-ok :
    (id v : ℕ) (worker : String) (w w' : World)
    → claim_task id worker v w ≡ (ok tt, w')
    → (w'.tasks
        ≡ update_where
            (has_version id v)
            (λ t. record t {
              status = TaskStatus.running;
              worker_id = some worker;
              version = v + 1;
            })
            w.tasks)
      × (count_where (has_version id v) w.tasks ≢ 0)
unfolding claim_task update_tasks actions
claim_task-eq-ok id v worker w w' e = ground (arith, e)
