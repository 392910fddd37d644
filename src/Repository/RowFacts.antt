-- ===== src/Repository/RowFacts.antt =====
-- Facts about the row of one task that no statement undoes.
use go_tempo.Base.{
  ℕ, ◌≡◌, refl, sym, ap, ◌∙◌, Bool, true, ◌||◌, List, [], ◌∷◌, ◌++◌, map, ◌==◌, arith, Bool-cases,
  inl, inr, All, All-append,
}
use go_tempo.Domain.{Task, WorkflowExecution}
use go_tempo.External.{External}
use go_tempo.Repository.Rows.{update_where, has_task, fits, with_defaults}
use go_tempo.Repository.Tasks.{accepts_row}
use go_tempo.Repository.Evolution.{Closed, TaskProgress}

-- The row exists, and satisfies `R`.
pub record RowFact (id : ℕ) (R : Task → Type 0) (es : List WorkflowExecution) (ts : List Task)
    : Type 0 where
  pub known : has_task id ts ≡ true
  pub rows : All (λ t. t.id ≡ id → R t) ts

module _ (id : ℕ) where
  pub has_task-update_where :
      (p : Task → Bool) (f : Task → Task) (ts : List Task)
      → ((t : Task) → p t ≡ true → TaskProgress t (f t))
      → has_task id (update_where p f ts) ≡ has_task id ts
  unfolding has_task update_where
  has_task-update_where p f [] step = refl
  has_task-update_where p f (t ∷ ts) step = elim (Bool-cases (p t)) [
    | inl hit ↦
        rw (hit, (step t hit).id)
          (ap (λ (b : Bool). t.id == id || b) (has_task-update_where p f ts step))
    | inr miss ↦ rw miss (ap (λ (b : Bool). t.id == id || b) (has_task-update_where p f ts step))
  ]

  pub has_task-append : (xs ys : List Task) → has_task id xs ≡ true → has_task id (xs ++ ys) ≡ true
  unfolding has_task
  has_task-append [] ys h = cc
  has_task-append (x ∷ xs) ys h = ground (arith, has_task-append xs ys)

  -- A row with a known key is never added again.
  rows-insert :
      (R : Task → Type 0) (accepts : Task → Bool) (table more : List Task)
      → has_task id table ≡ true
      → fits accepts table more ≡ true
      → All (λ t. t.id ≡ id → R t) (map with_defaults more)
  unfolding fits has_task with_defaults
  rows-insert R accepts table [] known fit = tt
  rows-insert R accepts table (t ∷ ts) known fit = (
    λ e. absurd (ground (arith, ap (λ (n : ℕ). has_task n table) e)),
    rows-insert R accepts (t ∷ table) ts (ground arith) (ground arith),
  )

module _ (id : ℕ) (R : Task → Type 0) (stable : (t u : Task) → TaskProgress t u → R t → R u) where
  rows-update_where :
      (p : Task → Bool) (f : Task → Task) (ts : List Task)
      → ((t : Task) → p t ≡ true → TaskProgress t (f t))
      → All (λ t. t.id ≡ id → R t) ts
      → All (λ t. t.id ≡ id → R t) (update_where p f ts)
  unfolding update_where
  rows-update_where p f [] step h = tt
  rows-update_where p f (t ∷ ts) step h =
      let rest = rows-update_where p f ts step h.1 in
      elim (Bool-cases (p t)) [
        | inl hit ↦
            rw hit ((λ e. stable t (f t) (step t hit) (h.0 (sym (step t hit).id ∙ e))), rest)
        | inr miss ↦ rw miss (h.0, rest)
      ]

  -- A fact that the evolution of a row keeps, every statement keeps.
  pub RowFact-closed : (ext : External) → Closed ext (RowFact id R)
  RowFact-closed ext = record {
    on_update = λ p f es ts step q. record {
      known = rw (has_task-update_where id p f ts step) q.known;
      rows = rows-update_where p f ts step q.rows;
    };
    on_status = λ p f es ts step q. record { known = q.known; rows = q.rows };
    on_execution = λ e es ts q. record { known = q.known; rows = q.rows };
    on_insert = λ more es ts fit fresh q. record {
      known = has_task-append id ts (map with_defaults more) q.known;
      rows =
          All-append _ ts (map with_defaults more) q.rows
            (rows-insert id R (accepts_row ext) ts more q.known fit);
    };
  }
