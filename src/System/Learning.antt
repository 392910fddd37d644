-- ===== src/System/Learning.antt =====
-- What a thread knows after each of its steps.
use go_tempo.Base.{
  ℕ, ◌+◌, ◌≡◌, refl, sym, ap, subst, ◌∙◌, Bool, true, false, List, [], ◌∷◌, String, some,
  first_where, ◌==◌, ==_iff, if◌then◌else◌, arith, All, Bool-cases, Option-cases, inl, inr,
}
use go_tempo.Domain.{Task, WorkflowExecution, can_retry}
use go_tempo.External.{External}
use go_tempo.World.{
  World, M, Error, Result-cases, ok, err, replies, actions, attempt, ◌>>=◌, worker_retries,
}
use go_tempo.Repository.Rows.{has_version, has_task}
use go_tempo.Repository.Tasks.{claim_task, find_task_by_id, mark_skipped, increment_retry_count}
use go_tempo.Repository.RowFacts.{has_task-update_where}
use go_tempo.Repository.Locks.{IsKeyed, claim_task-eq-ok}
use go_tempo.Repository.Evolution.{claimed-TaskProgress}
use go_tempo.Repository.Retries.{IsSound, IsLater, Knows, raised, claim-IsLater}
use go_tempo.Redis.Queue.{pop}
use go_tempo.Worker.Registry.{Context, lookup}
use go_tempo.Worker.Process.{Worker}
use go_tempo.Worker.Phases.{
  Phase, idle, popped, fetched, skipped, claimed, rejecting, rejected, completing, retrying, acted,
  failing, gone, advance, after_skip, after_claim,
}
use go_tempo.System.Invariant.{known_task, KnowsOf, advance-IsSound}
use go_tempo.System.Threads.{reached}

IsLater-refl : (t : Task) → IsLater t t
IsLater-refl t = record { version = omega arith; max_retries = refl; retry_count = λ e. refl }

first_where-id :
    (id : ℕ) (ts : List Task) (t : Task) → first_where (λ u. u.id == id) ts ≡ some t → t.id ≡ id
first_where-id id [] t h = cc
first_where-id id (u ∷ ts) t h = elim (Bool-cases (u.id == id)) [
  | inl hit ↦
      let same : some u ≡ some t = rw hit at h in
      let row : u ≡ t = cc in ap (λ (x : Task). x.id) (sym row) ∙ (==_iff u.id id).0 hit
  | inr miss ↦ first_where-id id ts t (ground (arith, h, miss))
]

absent-any :
    (id : ℕ) (R : Task → Type 0) (ts : List Task)
    → has_task id ts ≡ false
    → All (λ u. u.id ≡ id → R u) ts
unfolding has_task
absent-any id R [] h = tt
absent-any id R (t ∷ ts) h = ((λ e. absurd (ground arith)), absent-any id R ts (ground arith))

-- The row that a query by the id finds is the only one with this id.
first_where-Knows :
    (id : ℕ) (es : List WorkflowExecution) (ts : List Task) (t : Task)
    → IsKeyed ts
    → first_where (λ u. u.id == id) ts ≡ some t
    → Knows t es ts
unfolding has_task
first_where-Knows id es [] t keyed h = cc
first_where-Knows id es (u ∷ ts) t keyed h = elim (Bool-cases (u.id == id)) [
  | inl hit ↦
      let same : some u ≡ some t = rw hit at h in
      let row : u ≡ t = cc in
      subst (λ x. Knows x es (u ∷ ts)) row
        (record {
          known = ground arith;
          rows = ((λ e. IsLater-refl u), absent-any u.id (IsLater u) ts keyed.0);
        })
  | inr miss ↦
      let found : first_where (λ u. u.id == id) ts ≡ some t = ground (arith, h, miss) in
      let rest = first_where-Knows id es ts t keyed.1 found in
      let same = first_where-id id ts t found in
      record {
        known = ground (arith, rest.known);
        rows = ((λ e. absurd (ground (arith, e, same, miss))), rest.rows);
      }
]

find_task_by_id-eq-ok :
    (id : ℕ) (t : Task) (w : World)
    → (find_task_by_id id w).0 ≡ ok t
    → (first_where (λ u. u.id == id) w.tasks ≡ some t) × ((find_task_by_id id w).1.tasks ≡ w.tasks)
unfolding find_task_by_id actions
find_task_by_id-eq-ok id t w h = ground (arith, h)

-- A claim that succeeds, with what the worker knows of the row before and after it.
claim_task-Knows :
    (task : Task) (worker : String) (w : World)
    → IsKeyed w.tasks
    → Knows task w.executions w.tasks
    → (claim_task task.id worker task.version w).0 ≡ ok tt
    → (es : List WorkflowExecution)
    → Knows (raised task) es (claim_task task.id worker task.version w).1.tasks
claim_task-Knows task worker w keyed knows done es =
    let (after, found) =
      claim_task-eq-ok task.id task.version worker w (claim_task task.id worker task.version w).1
        (ap (λ r. (r, (claim_task task.id worker task.version w).1)) done) in
    record {
      known =
          rw
            (
              after,
              has_task-update_where task.id (has_version task.id task.version) _ w.tasks
                  (claimed-TaskProgress task.id worker task.version),
            )
            knows.known;
      rows = rw after (claim-IsLater task worker w.tasks keyed knows.rows found);
    }

module _ (ext : External) (worker : Worker) (ctx : Context) where
  -- The thread knows its task after the step, if it did before it.
  abbrev Learns : M Phase → World → Type 0
  Learns m w = KnowsOf (known_task (reached (m w).0)) (m w).1.executions (m w).1.tasks

  idle-Learns : (w : World) → Learns (advance ext worker ctx idle) w
  unfolding advance replies
  idle-Learns w = elim (Result-cases (pop worker.queue w).0) [
    | inl (task_id, found) ↦ rw found tt
    | inr (e, nothing) ↦ rw nothing tt
  ]

  popped-Learns :
      (task_id : String) (w : World)
      → IsKeyed w.tasks
      → Learns (advance ext worker ctx (popped task_id)) w
  unfolding advance replies
  popped-Learns task_id w keyed = elim (Option-cases (ext.uuid_parse task_id)) [
    | inl invalid ↦ rw invalid tt
    | inr (id, valid) ↦ elim (Result-cases (find_task_by_id id w).0) [
      | inl (task, found) ↦
          let (row, same) = find_task_by_id-eq-ok id task w found in
          rw (valid, found, same) (first_where-Knows id _ w.tasks task keyed row)
      | inr (e, missing) ↦ rw (valid, missing) tt
    ]
  ]

  fetched-Learns :
      (b : Bool) (task : Task) (w : World)
      → IsKeyed w.tasks
      → Knows task w.executions w.tasks
      → Learns
          (if b
            then (attempt (mark_skipped ext task.id) >>= after_skip ext worker task)
            else (attempt (claim_task task.id worker.worker_id task.version)
                >>= after_claim ext worker task))
          w
  unfolding replies
  fetched-Learns true task w keyed knows = elim (Result-cases (mark_skipped ext task.id w).0) [
    | inl (a, done) ↦ rw done tt
    | inr (e, lost) ↦ rw lost tt
  ]
  fetched-Learns false task w keyed knows =
      elim (Result-cases (claim_task task.id worker.worker_id task.version w).0) [
        | inl (a, done) ↦ rw done (claim_task-Knows task worker.worker_id w keyed knows done _)
        | inr (e, lost) ↦ rw lost tt
      ]

  abbrev After : Task → M Phase → World → Type 0
  After task m w = Knows task (m w).1.executions (m w).1.tasks

  claimed-Learns :
      (task : Task) (w : World)
      → After task (advance ext worker ctx (claimed task)) w
      → Learns (advance ext worker ctx (claimed task)) w
  unfolding advance replies
  claimed-Learns task w after = elim (Option-cases (lookup worker.registry task.action)) [
    | inl unknown ↦ rw unknown (rw unknown at after)
    | inr (handler, known) ↦ rw known (rw known at after)
  ]

  failed-Learns :
      (task : Task) (e : Error) (w : World) → Learns (advance ext worker ctx (acted task (err e))) w
  unfolding advance replies
  failed-Learns task e w = elim (Bool-cases (can_retry task task.max_retries)) [
    | inl again ↦
        let v : World = record w {
          metrics = worker_retries task.action (task.retry_count + 1) ∷ w.metrics;
        } in
        elim (Result-cases (increment_retry_count task.id task.version v).0) [
          | inl (a, done) ↦ rw (again, done) tt
          | inr (x, lost) ↦ rw (again, lost) tt
        ]
    | inr never ↦ rw never tt
  ]

  phase-Learns :
      (phase : Phase) (w : World)
      → IsSound (KnowsOf (known_task phase)) w.executions w.tasks
      → KnowsOf
          (known_task phase)
          (advance ext worker ctx phase w).1.executions
          (advance ext worker ctx phase w).1.tasks
      → Learns (advance ext worker ctx phase) w
  unfolding advance replies
  phase-Learns idle w s after = idle-Learns w
  phase-Learns (popped task_id) w s after = popped-Learns task_id w s.keyed
  phase-Learns (fetched task) w s after = fetched-Learns task.skip_hint task w s.keyed s.fact
  phase-Learns (skipped task) w s after = tt
  phase-Learns (claimed task) w s after = claimed-Learns task w after
  phase-Learns (rejecting task) w s after = after
  phase-Learns (rejected task) w s after = after
  phase-Learns (acted task (ok output)) w s after = tt
  phase-Learns (acted task (err e)) w s after = failed-Learns task e w
  phase-Learns (completing task) w s after = tt
  phase-Learns (retrying task) w s after = tt
  phase-Learns (failing task e) w s after = tt
  phase-Learns (gone task e) w s after = tt

  pub advance-Learns :
      (phase : Phase) (w : World)
      → IsSound (KnowsOf (known_task phase)) w.executions w.tasks
      → Learns (advance ext worker ctx phase) w
  advance-Learns phase w s =
      phase-Learns phase w s
        ((advance-IsSound ext worker ctx phase).keep w (record { holds = s })).holds.fact
