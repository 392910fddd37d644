-- ===== src/System/Releases.antt =====
-- The tasks that a statement releases: those that the coordinator or the service then hands out.
use go_tempo.Base.{
  ℕ, zero, suc, ◌+◌, ◌≤◌, ◌≡◌, refl, ◌∙◌, Bool, false, List, [], ◌∷◌, ◌++◌, map, ℤ, pos, negsuc,
  pred_ℤ, is_zero, ◌==◌, arith, Bool-cases, inl, inr, ==_iff,
}
use go_tempo.Domain.{Task}
use go_tempo.Repository.Rows.{update_where, with_defaults, has_task}
use go_tempo.Repository.Dag.{ready_ids}
use go_tempo.Repository.Evolution.{TaskProgress}
use go_tempo.Repository.RowFacts.{has_task-update_where}
use go_tempo.Repository.Locks.{IsKeyed}
use go_tempo.Service.{get_root_tasks}
use go_tempo.System.Tokens.{one_if, occurs, may_start, released}

-- The counter passes 0 once.
passes_zero :
    (d : ℤ) → one_if (is_zero (pred_ℤ d)) + one_if (may_start d) ≤ one_if (may_start (pred_ℤ d))
passes_zero (pos zero) = omega arith
passes_zero (pos (suc zero)) = omega arith
passes_zero (pos (suc (suc n))) = omega arith
passes_zero (negsuc n) = omega arith

released-absent : (id : ℕ) (ts : List Task) → has_task id ts ≡ false → released id ts ≡ false
unfolding has_task
released-absent id [] h = refl
released-absent id (t ∷ ts) h = ground (arith, released-absent id ts)

module _ (id : ℕ) (p : Task → Bool) (f : Task → Task) where
  ready-absent : (ts : List Task) → has_task id ts ≡ false → occurs id (ready_ids p f ts) ≡ 0
  unfolding has_task ready_ids
  ready-absent [] h = refl
  ready-absent (t ∷ ts) h = ground (arith, ready-absent ts)

  -- A query hands out a task only if it releases it.
  pub ready-released :
      (step : (t : Task) → TaskProgress t (f t))
      (down : (t : Task) → (f t).in_degree ≡ pred_ℤ t.in_degree) (ts : List Task)
      → IsKeyed ts
      → occurs id (ready_ids p f ts) + one_if (released id ts)
        ≤ one_if (released id (update_where p f ts))
  unfolding ready_ids update_where
  ready-released step down [] keyed = omega arith
  ready-released step down (t ∷ ts) keyed = elim (Bool-cases (t.id == id)) [
    | inl mine ↦
        let gone : has_task id ts ≡ false = rw (← (==_iff t.id id).0 mine) keyed.0 in
        let gone' : has_task id (update_where p f ts) ≡ false =
          has_task-update_where id p f ts (λ u h. step u) ∙ gone in
        ground (
          arith,
          mine,
          (step t).id,
          down t,
          passes_zero t.in_degree,
          ready-absent ts gone,
          released-absent id ts gone,
          released-absent id (update_where p f ts) gone',
        )
    | inr other ↦ ground (arith, other, (step t).id, ready-released step down ts keyed.1)
  ]

roots-absent :
    (id : ℕ) (more : List Task)
    → has_task id (map with_defaults more) ≡ false
    → occurs id (map (λ t. t.id) (get_root_tasks more)) ≡ 0
unfolding has_task get_root_tasks with_defaults
roots-absent id [] h = refl
roots-absent id (t ∷ ts) h = ground (arith, roots-absent id ts)

new_roots-released :
    (id : ℕ) (more : List Task)
    → IsKeyed (map with_defaults more)
    → occurs id (map (λ t. t.id) (get_root_tasks more))
      ≤ one_if (released id (map with_defaults more))
unfolding get_root_tasks with_defaults
new_roots-released id [] keyed = omega arith
new_roots-released id (t ∷ ts) keyed = elim (Bool-cases (t.id == id)) [
  | inl mine ↦
      let gone : has_task id (map with_defaults ts) ≡ false =
        rw (← (==_iff t.id id).0 mine) keyed.0 in
      ground (arith, mine, roots-absent id ts gone, released-absent id (map with_defaults ts) gone)
  | inr other ↦ ground (arith, other, new_roots-released id ts keyed.1)
]

has_task-append_right :
    (id : ℕ) (xs ys : List Task) → has_task id (xs ++ ys) ≡ false → has_task id ys ≡ false
unfolding has_task
has_task-append_right id [] ys h = h
has_task-append_right id (x ∷ xs) ys h = ground (arith, has_task-append_right id xs ys)

-- A submission hands out only tasks that are new and released.
pub roots-released :
    (id : ℕ) (table more : List Task)
    → IsKeyed (table ++ map with_defaults more)
    → occurs id (map (λ t. t.id) (get_root_tasks more)) + one_if (released id table)
      ≤ one_if (released id (table ++ map with_defaults more))
roots-released id [] more keyed = omega (arith, new_roots-released id more keyed)
roots-released id (t ∷ ts) more keyed = elim (Bool-cases (t.id == id)) [
  | inl mine ↦
      let gone : has_task id (ts ++ map with_defaults more) ≡ false =
        rw (← (==_iff t.id id).0 mine) keyed.0 in
      let none_new =
        roots-absent id more (has_task-append_right id ts (map with_defaults more) gone) in
      ground (arith, mine, none_new, roots-released id ts more keyed.1)
  | inr other ↦ ground (arith, other, roots-released id ts more keyed.1)
]
