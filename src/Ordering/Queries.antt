-- ===== src/Ordering/Queries.antt =====
-- The queries of internal/coordinator/coordinator.go on tables with the same rows in another order. The
-- ids that a query returns are a multiset.
use mathlib.Core.List.{Permᴰ}
use mathlib.Core.List.Permᴰ
use mathlib.Core.Quot.{sound}
use mathlib.Mathlib.Data.Multiset.Defs.{of_list}
use go_tempo.Base.{
  ℕ, ◌≡◌, refl, ap, subst, sym, String, Bool, true, false, ◌&&◌, List, ◌∷◌, if◌then◌else◌, is_zero,
}
use go_tempo.Domain.{Task}
use go_tempo.External.{External, dep_param}
use go_tempo.World.{
  World, M, Result, ok, err, replies, gets, write_tasks, pure, throw, inc, service, on_error,
  and_then, ◌>>=◌, ◌>>◌, database_error, db_query_errors,
}
use go_tempo.Repository.Rows.{update_where}
use go_tempo.Repository.Dag.{
  ready_ids, depends_on, decrement_query, decrement_row, taint_row, decrement_and_get_ready_tasks,
  decrement_and_set_skip_hint, are_all_tasks_completed,
}
use go_tempo.Kahn.Refinement.{end_query}
use go_tempo.Coordinator.{check_if_workflow_finished}
use go_tempo.Ordering.Rows.{Reordered, update_where-Permᴰ, update_where-IsKeyed}
use go_tempo.Ordering.Rules.{Orderless, Agrees, orderless_rules}
use go_tempo.Ordering.Statements.{counts-Orderless, statement_rules}

one-Permᴰ :
    (b : Bool) (id : ℕ) {xs ys : List ℕ}
    → Permᴰ xs ys
    → Permᴰ (if b then id ∷ xs else xs) (if b then id ∷ ys else ys)
one-Permᴰ true id d = Permᴰ.cons refl d
one-Permᴰ false id d = d

two-Permᴰ :
    (b c : Bool) (x y : ℕ) (l : List ℕ)
    → Permᴰ
        (if b then x ∷ (if c then y ∷ l else l) else (if c then y ∷ l else l))
        (if c then y ∷ (if b then x ∷ l else l) else (if b then x ∷ l else l))
two-Permᴰ true true x y l = Permᴰ.swap refl refl
two-Permᴰ true false x y l = Permᴰ.refl (x ∷ l)
two-Permᴰ false true x y l = Permᴰ.refl (y ∷ l)
two-Permᴰ false false x y l = Permᴰ.refl l

ready_ids-Permᴰ :
    (p : Task → Bool) (f : Task → Task) {xs ys : List Task}
    → Permᴰ xs ys
    → Permᴰ (ready_ids p f xs) (ready_ids p f ys)
unfolding ready_ids
ready_ids-Permᴰ p f Permᴰ.nil = Permᴰ.nil
ready_ids-Permᴰ p f (Permᴰ.cons e d) = rw e (one-Permᴰ _ _ (ready_ids-Permᴰ p f d))
ready_ids-Permᴰ p f (Permᴰ.swap {a' = a} {b' = b} {l = l} e k) =
    rw (e, k)
      (two-Permᴰ (p b && is_zero (f b).in_degree) (p a && is_zero (f a).in_degree) b.id a.id
        (ready_ids p f l))
ready_ids-Permᴰ p f (Permᴰ.trans c d) = Permᴰ.trans (ready_ids-Permᴰ p f c) (ready_ids-Permᴰ p f d)

-- The same ids, as often, or the same error.
abbrev SameIds : Result (List ℕ) → Result (List ℕ) → Type 0
SameIds (ok xs) (ok ys) = of_list xs ≡ of_list ys
SameIds (err e) (err k) = e ≡ k
SameIds _ _ = ⊥

-- With the rows in another order, the query returns the same ids and leaves the same world, but for the
-- order of its rows.
abbrev pub AgreesOnIds : M (List ℕ) → (w : World) (ts : List Task) → Type 0
AgreesOnIds m w ts =
    (later : List Task) × SameIds (m w).0 (m (record w { tasks = ts })).0
    × ((m (record w { tasks = ts })).1 ≡ record (m w).1 { tasks = later })
    × Reordered (m w).1.tasks later

check_if_workflow_finished-Orderless : (id : ℕ) → Orderless (check_if_workflow_finished id)
unfolding check_if_workflow_finished are_all_tasks_completed
check_if_workflow_finished-Orderless id = search (statement_rules, counts-Orderless) depth 9

-- Whatever fails, the check of an execution does the same with the rows in another order.
check_if_workflow_finished-Agrees :
    (id : ℕ) (w : World) (ts : List Task)
    → Reordered w.tasks ts
    → Agrees (check_if_workflow_finished id) w ts
check_if_workflow_finished-Agrees id w ts h = (check_if_workflow_finished-Orderless id).keep w ts h

module _ (ext : External) (f : Task → Task) (same : (t : Task) → (f t).id ≡ t.id)
    (operation : String) (execution_id : ℕ) (ref_id : String) where
  abbrev p : Task → Bool
  p = depends_on ext execution_id ref_id

  abbrev guard : M (Unit {0})
  guard =
      on_error
        (service database_error
          >> (if ext.jsonb_valid (dep_param ref_id) then pure tt else throw database_error))
        (inc (db_query_errors operation))

  guard-Orderless : Orderless guard
  guard-Orderless = search orderless_rules

  abbrev collect : Unit {0} → M (List ℕ)
  collect done = gets (λ w. ready_ids p f w.tasks) >>= λ ready.
      write_tasks (update_where p f) >>= λ _. pure ready

  after_guard :
      (r : Result (Unit {0})) (w : World) (ts : List Task)
      → Reordered w.tasks ts
      → AgreesOnIds (and_then r collect) w ts
  unfolding replies
  after_guard (ok a) w ts h = (
    update_where p f ts,
    sound ∣ ready_ids-Permᴰ p f h.1 ∣₁,
    refl,
    (update_where-IsKeyed p f w.tasks same h.0, update_where-Permᴰ p f h.1),
  )
  after_guard (err e) w ts h = (ts, refl, refl, h)

  query-AgreesOnIds :
      (w : World) (ts : List Task)
      → Reordered w.tasks ts
      → AgreesOnIds (decrement_query ext f operation execution_id ref_id) w ts
  unfolding decrement_query ◌>>=◌
  query-AgreesOnIds w ts h =
      let (middle, agree, rows) = guard-Orderless.keep w ts h in
      let m = decrement_query ext f operation execution_id ref_id in
      subst
        (λ (x : Result (List ℕ) × World).
          (later : List Task) × SameIds (m w).0 x.0
          × (x.1 ≡ record (m w).1 { tasks = later })
          × Reordered (m w).1.tasks later)
        (sym (ap (λ r. and_then r.0 collect r.1) agree))
        (after_guard (guard w).0 (guard w).1 middle rows)

-- Whatever fails, both queries of the coordinator, on tables with the same rows in another order, fail
-- with the same error or return the same ids, as often, and leave the same world, but for the order
-- of the rows; if the ids of the rows are distinct.
pub end_query-AgreesOnIds :
    (ext : External) (bad : Bool) (execution_id : ℕ) (ref_id : String) (w : World) (ts : List Task)
    → Reordered w.tasks ts
    → AgreesOnIds (end_query ext bad execution_id ref_id) w ts
unfolding decrement_and_get_ready_tasks decrement_and_set_skip_hint decrement_row taint_row
end_query-AgreesOnIds ext true execution_id ref_id =
    query-AgreesOnIds ext taint_row (λ t. refl) "decrement_skip" execution_id ref_id
end_query-AgreesOnIds ext false execution_id ref_id =
    query-AgreesOnIds ext decrement_row (λ t. refl) "decrement_ready" execution_id ref_id
