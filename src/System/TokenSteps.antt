-- ===== src/System/TokenSteps.antt =====
-- A step of a thread hands out no task: an id goes from a list to the thread, and perhaps back.
use go_tempo.Base.{
  ℕ, ◌+◌, ◌≤◌, ◌≡◌, refl, ap, sym, ◌∙◌, Bool, true, false, List, [], ◌∷◌, String, some, ◌==◌,
  first_where, if◌then◌else◌, arith, Bool-cases, Option-cases, inl, inr,
}
use go_tempo.Domain.{Task, can_retry, raw, WorkflowStatus}
use go_tempo.External.{External, Documented}
use go_tempo.World.{
  World, M, Error, Result-cases, ok, err, OnQueues, Preserves, replies, actions, attempt, ◌>>=◌,
  worker_retries,
}
use go_tempo.Repository.Tasks.{claim_task, find_task_by_id, mark_skipped, increment_retry_count}
use go_tempo.Repository.Waiting.{
  claim_task-Waits, increment_retry_count-Waits, mark_completed-Waits, mark_failed-Waits,
  mark_skipped-Waits, find_task_by_id-Waits, update_status-Waits, publish_task_completed-Waits,
  publish_task_terminated-Waits,
}
use go_tempo.Repository.Tasks.{mark_completed, mark_failed}
use go_tempo.Repository.Workflows.{update_status}
use go_tempo.Redis.EventBus.{publish_task_completed, publish_task_terminated}
use go_tempo.Redis.Queue.{RedisQueue, main_queue, retry_queue, pop, push, take_front}
use go_tempo.Worker.Registry.{Context, lookup}
use go_tempo.Worker.Process.{Worker, error_text}
use go_tempo.Worker.Phases.{
  Phase, idle, popped, fetched, skipped, claimed, rejecting, rejected, completing, retrying, acted,
  failing, gone, advance, after_skip, after_claim,
}
use go_tempo.System.Threads.{reached}
use go_tempo.System.Tokens.{one_if, is_named, listed, listed-append, queued, works_on}

-- A pop takes one id from a list.
pop-queued :
    (ext : External) (id : ℕ) (q : RedisQueue) (w : World) (task_id : String)
    → (pop q w).0 ≡ ok task_id
    → queued ext id (pop q w).1 + one_if (is_named id (ext.uuid_parse task_id)) ≡ queued ext id w
unfolding pop take_front actions
pop-queued ext id main_queue w task_id h = ground (arith, h)
pop-queued ext id retry_queue w task_id h = ground (arith, h)

pop-queued_err :
    (ext : External) (id : ℕ) (q : RedisQueue) (w : World) (e : Error)
    → (pop q w).0 ≡ err e
    → queued ext id (pop q w).1 ≡ queued ext id w
unfolding pop take_front actions
pop-queued_err ext id main_queue w e h = ground (arith, h)
pop-queued_err ext id retry_queue w e h = ground (arith, h)

-- A push adds at most one.
pub push-queued :
    (ext : External) (id : ℕ) (q : RedisQueue) (s : String) (w : World)
    → queued ext id (push q s w).1 ≤ queued ext id w + one_if (is_named id (ext.uuid_parse s))
unfolding push actions
push-queued ext id main_queue s w = ground (arith, listed-append ext id w.pending (s ∷ []))
push-queued ext id retry_queue s w = ground (arith, listed-append ext id w.retry (s ∷ []))

find_task_by_id-id :
    (id : ℕ) (t : Task) (w : World)
    → (find_task_by_id id w).0 ≡ ok t
    → first_where (λ u. u.id == id) w.tasks ≡ some t
unfolding find_task_by_id actions
find_task_by_id-id id t w h = ground (arith, h)

first_where-eq-id :
    (id : ℕ) (ts : List Task) (t : Task)
    → first_where (λ u. u.id == id) ts ≡ some t
    → (t.id == id) ≡ true
first_where-eq-id id [] t h = cc
first_where-eq-id id (u ∷ ts) t h = elim (Bool-cases (u.id == id)) [
  | inl hit ↦
      let same : some u ≡ some t = rw hit at h in
      let row : u ≡ t = cc in ap (λ (x : Task). x.id == id) (sym row) ∙ hit
  | inr miss ↦ first_where-eq-id id ts t (rw miss at h)
]

module _ (ext : External) (doc : Documented ext) (worker : Worker) (ctx : Context) (id : ℕ) where
  -- The lists are as they were.
  abbrev Same : World → World → Type 0
  Same w = OnQueues (λ pending retry. listed ext id pending + listed ext id retry ≡ queued ext id w)

  unchanged :
      {A : Type 0} (m : M A) (w : World)
      → Preserves (Same w) m
      → queued ext id (m w).1 ≡ queued ext id w
  unchanged m w p = (p.keep w (record { waits = refl })).waits

  -- No more is handed out after the step than before it.
  abbrev Handed : Phase → M Phase → World → Type 0
  Handed phase m w =
      queued ext id (m w).1 + one_if (works_on ext id (reached (m w).0))
      ≤ queued ext id w + one_if (works_on ext id phase)

  idle-Handed : (w : World) → Handed idle (advance ext worker ctx idle) w
  unfolding advance replies
  idle-Handed w = elim (Result-cases (pop worker.queue w).0) [
    | inl (task_id, found) ↦
        rw found (omega (arith, pop-queued ext id worker.queue w task_id found))
    | inr (e, nothing) ↦ rw nothing (omega (arith, pop-queued_err ext id worker.queue w e nothing))
  ]

  popped-Handed :
      (task_id : String) (w : World)
      → Handed (popped task_id) (advance ext worker ctx (popped task_id)) w
  unfolding advance replies
  popped-Handed task_id w = elim (Option-cases (ext.uuid_parse task_id)) [
    | inl invalid ↦ rw invalid (omega arith)
    | inr (x, valid) ↦
        let same = unchanged (find_task_by_id x) w (find_task_by_id-Waits ext x) in
        elim (Result-cases (find_task_by_id x w).0) [
          | inl (task, found) ↦
              let row = first_where-eq-id x w.tasks task (find_task_by_id-id x task w found) in
              let eq : (task.id == id) ≡ (x == id) = ground arith in
              rw (valid, found) (omega (arith, same, ap one_if eq))
          | inr (e, missing) ↦ rw (valid, missing) (omega (arith, same))
        ]
  ]

  fetched-Handed :
      (b : Bool) (task : Task) (w : World)
      → Handed
          (fetched task)
          (if b
            then (attempt (mark_skipped ext task.id) >>= after_skip ext worker task)
            else (attempt (claim_task task.id worker.worker_id task.version)
                >>= after_claim ext worker task))
          w
  unfolding replies
  fetched-Handed true task w =
      let same = unchanged (mark_skipped ext task.id) w (mark_skipped-Waits ext task.id) in
      elim (Result-cases (mark_skipped ext task.id w).0) [
        | inl (a, done) ↦ rw done (omega (arith, same))
        | inr (e, lost) ↦ rw lost (omega (arith, same))
      ]
  fetched-Handed false task w =
      let same =
        unchanged (claim_task task.id worker.worker_id task.version) w
          (claim_task-Waits ext task.id worker.worker_id task.version) in
      elim (Result-cases (claim_task task.id worker.worker_id task.version w).0) [
        | inl (a, done) ↦ rw done (omega (arith, same))
        | inr (e, lost) ↦ rw lost (omega (arith, same))
      ]

  claimed-Handed :
      (task : Task) (w : World) → Handed (claimed task) (advance ext worker ctx (claimed task)) w
  unfolding advance replies
  claimed-Handed task w = elim (Option-cases (lookup worker.registry task.action)) [
    | inl unknown ↦ rw unknown (
        omega (
          arith,
          unchanged (mark_failed ext task.id "unknown action") w
              (mark_failed-Waits ext task.id "unknown action"),
        ))
    | inr (handler, known) ↦ rw known (omega arith)
  ]

  failed-Handed :
      (task : Task) (e : Error) (w : World)
      → Handed (acted task (err e)) (advance ext worker ctx (acted task (err e))) w
  unfolding advance replies
  failed-Handed task e w = elim (Bool-cases (can_retry task task.max_retries)) [
    | inl again ↦
        let v : World = record w {
          metrics = worker_retries task.action (task.retry_count + 1) ∷ w.metrics;
        } in
        let same =
          unchanged (increment_retry_count task.id task.version) v
            (increment_retry_count-Waits ext task.id task.version) in
        elim (Result-cases (increment_retry_count task.id task.version v).0) [
          | inl (a, done) ↦ rw (again, done) (omega (arith, same))
          | inr (x, lost) ↦ rw (again, lost) (omega (arith, same))
        ]
    | inr never ↦ rw never (
        omega (
          arith,
          unchanged (mark_failed ext task.id (error_text e)) w
              (mark_failed-Waits ext task.id (error_text e)),
        ))
  ]

  -- The id that goes back to a list is the task's.
  retrying-Handed :
      (task : Task) (w : World) → Handed (retrying task) (advance ext worker ctx (retrying task)) w
  unfolding advance replies
  retrying-Handed task w =
      let pushed = push-queued ext id worker.retry_queue (ext.uuid_string task.id) w in
      omega (arith, pushed, ap (λ o. one_if (is_named id o)) (doc.parse-string task.id))

  pub advance-Handed : (phase : Phase) (w : World) → Handed phase (advance ext worker ctx phase) w
  unfolding advance replies
  advance-Handed idle w = idle-Handed w
  advance-Handed (popped task_id) w = popped-Handed task_id w
  advance-Handed (fetched task) w = fetched-Handed task.skip_hint task w
  advance-Handed (skipped task) w =
      omega (arith, unchanged (publish_task_terminated _) w (publish_task_terminated-Waits ext _))
  advance-Handed (claimed task) w = claimed-Handed task w
  advance-Handed (rejecting task) w =
      omega (arith, unchanged (publish_task_terminated _) w (publish_task_terminated-Waits ext _))
  advance-Handed (rejected task) w = omega (
    arith,
    unchanged (update_status task.execution_id WorkflowStatus.failed) w
        (update_status-Waits ext _ _),
  )
  advance-Handed (acted task (ok output)) w =
      omega (
        arith,
        unchanged (mark_completed ext task.id (raw output)) w (mark_completed-Waits ext _ _),
      )
  advance-Handed (acted task (err e)) w = failed-Handed task e w
  advance-Handed (completing task) w =
      omega (arith, unchanged (publish_task_completed _) w (publish_task_completed-Waits ext _))
  advance-Handed (retrying task) w = retrying-Handed task w
  advance-Handed (failing task e) w = omega (
    arith,
    unchanged (update_status task.execution_id WorkflowStatus.failed) w
        (update_status-Waits ext _ _),
  )
  advance-Handed (gone task e) w =
      omega (arith, unchanged (publish_task_terminated _) w (publish_task_terminated-Waits ext _))
