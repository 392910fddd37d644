-- ===== src/Repository/Atomic.antt =====
-- CreateExecution writes everything or nothing.
use go_tempo.Base.{◌≡◌, refl, Bool, true, false, List, [], ◌∷◌, ◌++◌, map, ◌⊎◌, inl, inr, arith}
use mathlib.Core.List.{append-nil}
use go_tempo.Domain.{Task, WorkflowExecution}
use go_tempo.External.{External}
use go_tempo.World.{
  World, M, and_then, Error, Result, ok, err, database_error, actions, replies, service, poll, pure,
  ◌>>=◌,
}
use go_tempo.Repository.Rows.{with_defaults, has_execution}
use go_tempo.Repository.Tasks.{
  transaction, insert_execution, insert_tasks, add_fitting, create_execution, create_execution_body,
}

-- The tables before and after.
abbrev pub SameTables : World → World → Type 0
SameTables v w = (w.executions ≡ v.executions) × (w.tasks ≡ v.tasks)

abbrev pub Adds : WorkflowExecution → List Task → World → World → Type 0
Adds e ts v w =
    (w.executions ≡ v.executions ++ e ∷ [])
    × (w.tasks ≡ v.tasks ++ map with_defaults ts)
    × (has_execution e.id v.executions ≡ false)

insert_execution-eq-ok :
    (ext : External) (e : WorkflowExecution) (w w' : World)
    → insert_execution ext e w ≡ (ok tt, w')
    → (w'.executions ≡ w.executions ++ e ∷ [])
      × (w'.tasks ≡ w.tasks)
      × (has_execution e.id w.executions ≡ false)
unfolding insert_execution actions
insert_execution-eq-ok ext e w w' h = ground (arith, h)

insert_tasks-eq-ok :
    (ext : External) (ts : List Task) (w w' : World)
    → insert_tasks ext ts w ≡ (ok tt, w')
    → (w'.executions ≡ w.executions) × (w'.tasks ≡ w.tasks ++ map with_defaults ts)
unfolding insert_tasks add_fitting actions
insert_tasks-eq-ok ext ts w w' h = ground (arith, h)

pub bind-eq-ok :
    {A B : Type 0} (m : M A) (f : A → M B) (w w' : World) {b : B}
    → (m >>= f) w ≡ (ok b, w')
    → (a : A) × (v : World) × (m w ≡ (ok a, v)) × (f a v ≡ (ok b, w'))
unfolding ◌>>=◌
bind-eq-ok {A} {B} m f w w' {b} h = go (m w).0 (m w).1 refl h
  where
    go :
        (r : Result A) (v : World)
        → m w ≡ (r, v)
        → and_then r f v ≡ (ok b, w')
        → (a : A) × (v : World) × (m w ≡ (ok a, v)) × (f a v ≡ (ok b, w'))
    go (ok a) v e k = (a, v, e, k)
    go (err x) v e k = cc

body-eq-ok :
    (ext : External) (e : WorkflowExecution) (ts : List Task) (w w' : World)
    → create_execution_body ext e ts w ≡ (ok tt, w')
    → Adds e ts w w'
unfolding pure
body-eq-ok ext e [] w w' h =
    let (_, v, first, rest) = bind-eq-ok (insert_execution ext e) _ w w' h in
    ground (arith, insert_execution-eq-ok ext e w v first, rest, append-nil w.tasks)
body-eq-ok ext e (t ∷ ts) w w' h =
    let (_, v, first, rest) = bind-eq-ok (insert_execution ext e) _ w w' h in
    ground
      (arith, insert_execution-eq-ok ext e w v first, insert_tasks-eq-ok ext (t ∷ ts) v w' rest)

service-cases :
    (e : Error) (w : World)
    → ((v : World) × (service e w ≡ (ok tt, v)) × SameTables w v)
      ⊎ ((v : World) × (service e w ≡ (err e, v)) × SameTables w v)
unfolding service
service-cases e w = go w.outages
  where
    go :
        (later : List Bool)
        → ((v : World) × (poll e later w ≡ (ok tt, v)) × SameTables w v)
          ⊎ ((v : World) × (poll e later w ≡ (err e, v)) × SameTables w v)
    go [] = inl (w, refl, (refl, refl))
    go (true ∷ later) = inr (record w { outages = later }, refl, (refl, refl))
    go (false ∷ later) = inl (record w { outages = later }, refl, (refl, refl))

transaction-cases :
    (body : M Unit) (w : World)
    → ((v : World) × ((transaction body w).0 ≡ ok tt)
        × (body w ≡ (ok tt, v))
        × SameTables v (transaction body w).1)
      ⊎ ((x : Error) × ((transaction body w).0 ≡ err x) × SameTables w (transaction body w).1)
unfolding transaction ◌>>=◌
transaction-cases body w = go (body w).0 (body w).1 refl
  where
    go :
        (r : Result Unit) (v : World)
        → body w ≡ (r, v)
        → ((v : World) × ((transaction body w).0 ≡ ok tt)
            × (body w ≡ (ok tt, v))
            × SameTables v (transaction body w).1)
          ⊎ ((x : Error) × ((transaction body w).0 ≡ err x) × SameTables w (transaction body w).1)
    go (err x) v e = rw e (inr (x, refl, (refl, refl)))
    go (ok a) v e = elim (service-cases database_error v) [
      | inl (v', e', same) ↦ rw (e, e') (inl (v, refl, refl, same))
      | inr (v', e', same) ↦ rw (e, e') (inr (database_error, refl, (refl, refl)))
    ]

-- CreateExecution either succeeds, and adds the execution, whose id was not in the table, and all of
-- the tasks, with the defaults of their columns; or it fails, whatever the failure, and leaves both
-- tables as they were.
pub create_execution-atomic :
    (ext : External) (e : WorkflowExecution) (ts : List Task) (w : World)
    → ((create_execution ext e ts w).0 ≡ ok tt) × Adds e ts w (create_execution ext e ts w).1
      ⊎ ((x : Error) × ((create_execution ext e ts w).0 ≡ err x)
          × SameTables w (create_execution ext e ts w).1)
unfolding create_execution replies
create_execution-atomic ext e ts w = elim (transaction-cases (create_execution_body ext e ts) w) [
  | inl (v, done, ran, same) ↦ inl (ground (arith, done, same, body-eq-ok ext e ts w v ran))
  | inr (x, failed, same) ↦ inr (x, ground (arith, failed, same), ground (arith, failed, same))
]
