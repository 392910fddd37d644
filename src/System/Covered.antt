-- ===== src/System/Covered.antt =====
-- What may be handed out is covered by the rows that are released, and a push hands out only that.
use go_tempo.Base.{
  ℕ, ◌+◌, ◌≤◌, ◌≡◌, refl, ap, Bool, true, false, List, [], ◌∷◌, map, String, pred_ℤ, arith, inl,
  inr,
}
use go_tempo.Domain.{Task, WorkflowExecution}
use go_tempo.External.{External, Documented}
use go_tempo.World.{
  World, M, Result-cases, ok, OnTables, OnQueues, Preserves, replies, actions, pure, ◌>>=◌, bind-ok,
  bind-err,
}
use go_tempo.Repository.Rows.{update_where}
use go_tempo.Repository.Dag.{depends_on, ready_ids, decrement_query}
use go_tempo.Repository.Evolution.{Closed, TaskProgress}
use go_tempo.Repository.Locks.{IsKeyed}
use go_tempo.Repository.Keys.{IsKeyed-closed}
use go_tempo.Repository.Waiting.{decrement_query-Waits}
use go_tempo.Redis.{redis_rules}
use go_tempo.Redis.Queue.{RedisQueue, main_queue, push}
use go_tempo.Service.{enqueue_root_tasks}
use go_tempo.Coordinator.{push_ready}
use go_tempo.System.Tokens.{one_if, occurs, listed, queued, released, released-closed, is_named}
use go_tempo.System.TokenSteps.{push-queued}
use go_tempo.System.Releases.{ready-released}

-- What the tables cover: a task that is released may be handed out once.
pub record Covers (need : ℕ → ℕ) (es : List WorkflowExecution) (ts : List Task) : Type 0 where
  pub keyed : IsKeyed ts
  pub within : (id : ℕ) → need id ≤ one_if (released id ts)

within-grows : (n : ℕ) (a b : Bool) → (a ≡ true → b ≡ true) → n ≤ one_if a → n ≤ one_if b
within-grows n true b grows le = rw (grows refl) le
within-grows n false true grows le = omega arith
within-grows n false false grows le = le

pub Covers-closed : (ext : External) (need : ℕ → ℕ) → Closed ext (Covers need)
Covers-closed ext need = record {
  on_update = λ p f es ts step q. record {
    keyed = (IsKeyed-closed ext).on_update p f es ts step q.keyed;
    within = λ id.
        within-grows (need id) _ _ ((released-closed ext id).on_update p f es ts step)
          (q.within id);
  };
  on_status = λ p f es ts step q. record { keyed = q.keyed; within = q.within };
  on_execution = λ e es ts q. record { keyed = q.keyed; within = q.within };
  on_insert = λ more es ts fit fresh q. record {
    keyed = (IsKeyed-closed ext).on_insert more es ts fit fresh q.keyed;
    within = λ id.
        within-grows (need id) _ _ ((released-closed ext id).on_insert more es ts fit fresh)
          (q.within id);
  };
}

pub Covers-less :
    (need less : ℕ → ℕ) (es : List WorkflowExecution) (ts : List Task)
    → ((id : ℕ) → less id ≤ need id)
    → Covers need es ts
    → Covers less es ts
Covers-less need less es ts le c = record {
  keyed = c.keyed;
  within = λ id. omega (arith, le id, c.within id);
}

module _ (ext : External) (doc : Documented ext) (rest : ℕ → ℕ) where
  -- The ids in the lists, those that are about to be pushed, and `rest` are covered.
  abbrev pub IsCovered : List ℕ → World → Type 0
  IsCovered l w = Covers (λ id. queued ext id w + occurs id l + rest id) w.executions w.tasks

  -- An action that leaves the lists, and keeps what the statements keep.
  pub kept :
      {A : Type 0} (l : List ℕ) (m : M A)
      → ((need : ℕ → ℕ) → Preserves (OnTables (Covers need)) m)
      → ((Q : List String → List String → Type 0) → Preserves (OnQueues Q) m)
      → Preserves (IsCovered l) m
  kept l m tables waits = record {
    keep = λ w c.
        Covers-less _ _ _ _
          (λ id.
            let same =
              (Preserves.keep (waits (λ p r. listed ext id p + listed ext id r ≡ queued ext id w)) w
                (record { waits = refl })).waits in
            omega (arith, same))
          ((Preserves.keep (tables (λ id. queued ext id w + occurs id l + rest id)) w
            (record { holds = c })).holds);
  }

  IsCovered-less : (l : List ℕ) (w : World) → IsCovered l w → IsCovered [] w
  IsCovered-less l w = Covers-less _ _ w.executions w.tasks (λ id. omega arith)

  -- A push hands out an id that is covered.
  push-IsCovered :
      (q : RedisQueue) (x : ℕ) (l : List ℕ) (w : World)
      → IsCovered (x ∷ l) w
      → IsCovered l (push q (ext.uuid_string x) w).1
  push-IsCovered q x l w c =
      Covers-less _ _ _ _
        (λ id. omega (
          arith,
          push-queued ext id q (ext.uuid_string x) w,
          ap (λ o. one_if (is_named id o)) (doc.parse-string x),
        ))
        ((push-tables.keep w (record { holds = c })).holds)
    where
      push-tables :
          Preserves
            (OnTables (Covers (λ id. queued ext id w + occurs id (x ∷ l) + rest id)))
            (push q (ext.uuid_string x))
      push-tables = search redis_rules

  pub push_ready-IsCovered :
      (l : List ℕ) (w : World) → IsCovered l w → IsCovered [] (push_ready ext l w).1
  unfolding push_ready replies
  push_ready-IsCovered [] w c = c
  push_ready-IsCovered (x ∷ l) w c =
      push_ready-IsCovered l (push main_queue (ext.uuid_string x) w).1
        (push-IsCovered main_queue x l w c)

  pub enqueue-IsCovered :
      (q : RedisQueue) (ts : List Task) (w : World)
      → IsCovered (map (λ t. t.id) ts) w
      → IsCovered [] (enqueue_root_tasks ext q ts w).1
  unfolding enqueue_root_tasks pure
  enqueue-IsCovered q [] w c = c
  enqueue-IsCovered q (t ∷ ts) w c =
      let v = (push q (ext.uuid_string t.id) w).1 in
      let pushed = push-IsCovered q t.id (map (λ u. u.id) ts) w c in
      elim (Result-cases (push q (ext.uuid_string t.id) w).0) [
        | inl (a, done) ↦
            rw (bind-ok (push q (ext.uuid_string t.id)) (λ _. enqueue_root_tasks ext q ts) w a done)
              (enqueue-IsCovered q ts v pushed)
        | inr (e, lost) ↦
            rw
              (bind-err (push q (ext.uuid_string t.id)) (λ _. enqueue_root_tasks ext q ts) w e lost)
              (IsCovered-less (map (λ u. u.id) ts) v pushed)
      ]

  -- A query of the coordinator that answers.
  query-eq-ok :
      (f : Task → Task) (operation : String) (execution_id : ℕ) (r : String) (w : World)
      (l : List ℕ)
      → (decrement_query ext f operation execution_id r w).0 ≡ ok l
      → (l ≡ ready_ids (depends_on ext execution_id r) f w.tasks)
        × ((decrement_query ext f operation execution_id r w).1.tasks
            ≡ update_where (depends_on ext execution_id r) f w.tasks)
  unfolding decrement_query actions
  query-eq-ok f operation execution_id r w l h = ground (arith, h)

  pub query-IsCovered :
      (f : Task → Task) (operation : String)
      → ((t : Task) → TaskProgress t (f t))
      → ((t : Task) → (f t).in_degree ≡ pred_ℤ t.in_degree)
      → (execution_id : ℕ) (r : String) (w : World) (l : List ℕ) → IsCovered [] w
      → (decrement_query ext f operation execution_id r w).0 ≡ ok l
      → IsCovered l (decrement_query ext f operation execution_id r w).1
  query-IsCovered f operation step down execution_id r w l c h =
      let (ids, rows) = query-eq-ok f operation execution_id r w l h in
      let same = λ (id : ℕ).
        (Preserves.keep
          (decrement_query-Waits ext
            {Q = λ p q. listed ext id p + listed ext id q ≡ queued ext id w} f operation
            execution_id r)
          w (record { waits = refl })).waits in
      rw (rows, ids)
        (record {
          keyed =
              (IsKeyed-closed ext).on_update (depends_on ext execution_id r) f w.executions w.tasks
                (λ t p. step t) c.keyed;
          within = λ id.
              let once =
                ready-released id (depends_on ext execution_id r) f step down w.tasks c.keyed in
              omega (arith, same id, once, c.within id);
        })

-- What holds after a call, and what follows it keeps, holds at the end.
pub then-keeps {ℓ} :
    {P : World → Type ℓ} {A B : Type 0} (m : M A) (k : A → M B) (w : World)
    → P (m w).1
    → ((a : A) → Preserves P (k a))
    → P ((m >>= k) w).1
then-keeps m k w p keep = elim (Result-cases (m w).0) [
  | inl (a, done) ↦ rw (bind-ok m k w a done) ((keep a).keep (m w).1 p)
  | inr (e, lost) ↦ rw (bind-err m k w e lost) p
]
