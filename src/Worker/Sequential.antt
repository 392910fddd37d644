-- ===== src/Worker/Sequential.antt =====
-- The steps of Worker/Phases, one after the other, are ProcessNextTask of Worker/Process.
use go_tempo.Base.{
  ℕ, ◌+◌, ◌∷◌, zero, suc, ◌≡◌, refl, Bool, true, false, String, Bool-cases, Option-cases, inl, inr,
  if◌then◌else◌,
}
use go_tempo.Domain.{Task, can_retry}
use go_tempo.External.{External}
use go_tempo.World.{
  World, M, Result, ok, err, attempt, ignore, inc, ◌>>=◌, ◌>>◌, replies, worker_active_dec,
  worker_retries, Result-cases, pure, failure,
}
use go_tempo.Repository.Tasks
use go_tempo.Repository.Tasks.{find_task_by_id, mark_skipped, increment_retry_count}
use go_tempo.Redis.Queue.{pop}
use go_tempo.Worker.Registry.{Context, lookup}
use go_tempo.Worker.Process.{
  Worker, settle, mark_task_failed_permanently, handle_task_failure, handle_task_success,
  retry_task, reject_unknown_action, execute_task_action, run_claimed, handle_skipped_task,
  claim_task, pop_and_fetch_task, process_next_task, parsed,
}
use go_tempo.Worker.Phases.{
  Phase, idle, popped, claimed, acted, until_idle, advance, after_skip, after_claim,
}

module _ (ext : External) (worker : Worker) (ctx : Context) where
  -- From the phase on, at most `fuel` steps do what `m` does.
  abbrev Runs : ℕ → Phase → M (Unit {0}) → World → Type 0
  Runs fuel phase m w = until_idle ext worker fuel ctx phase w ≡ (ok idle, (m w).1)

  abbrev with_dec : M (Unit {0}) → M (Unit {0})
  with_dec m = ignore m >> inc (worker_active_dec worker.worker_id)

  idle-now : (n : ℕ) → until_idle ext worker n ctx idle ≡ pure idle
  unfolding until_idle
  idle-now zero = refl
  idle-now (suc n) = refl

  acted-Runs :
      (n : ℕ) (task : Task) (r : Result String) (w : World)
      → Runs (suc (suc (suc n))) (acted task r) (with_dec (settle ext worker task r)) w
  unfolding until_idle handle_task_success handle_task_failure mark_task_failed_permanently
      retry_task replies
  acted-Runs n task (ok output) w = refl
  acted-Runs n task (err e) w = elim (Bool-cases (can_retry task task.max_retries)) [
    | inl again ↦
        let v : World = record w {
          metrics = worker_retries task.action (task.retry_count + 1) ∷ w.metrics;
        } in
        elim (Result-cases (increment_retry_count task.id task.version v).0) [
          | inl (a, done) ↦ rw (again, done) refl
          | inr (x, lost) ↦ rw (again, lost) refl
        ]
    | inr never ↦ rw (never, idle-now n) refl
  ]

  claimed-Runs :
      (task : Task) (w : World)
      → Runs 6
          (claimed task)
          (with_dec (attempt (execute_task_action ext worker ctx task) >>= settle ext worker task))
          w
  unfolding until_idle execute_task_action reject_unknown_action replies
  claimed-Runs task w = elim (Option-cases (lookup worker.registry task.action)) [
    | inl unknown ↦ rw unknown (acted-Runs 0 task (err (failure "unknown action")) _)
    | inr (handler, known) ↦ elim (Result-cases (handler ctx task.input)) [
      | inl (output, e) ↦ rw (known, e) (acted-Runs 2 task (ok output) w)
      | inr (x, e) ↦ rw (known, e) (acted-Runs 2 task (err x) w)
    ]
  ]

  fetched-Runs :
      (b : Bool) (task : Task) (w : World)
      → ((if b
              then (attempt (mark_skipped ext task.id) >>= after_skip ext worker task)
              else (attempt (Tasks.claim_task task.id worker.worker_id task.version)
                  >>= after_claim ext worker task))
            >>= until_idle ext worker 6 ctx)
          w
        ≡ (
          ok idle,
          ((if b
                then handle_skipped_task ext worker task
                else (claim_task ext worker task >>= run_claimed ext worker ctx))
              w).1,
        )
  unfolding until_idle handle_skipped_task claim_task run_claimed replies
  fetched-Runs true task w = elim (Result-cases (mark_skipped ext task.id w).0) [
    | inl (a, done) ↦ rw done refl
    | inr (x, lost) ↦ rw lost refl
  ]
  fetched-Runs false task w =
      elim (Result-cases (Tasks.claim_task task.id worker.worker_id task.version w).0) [
        | inl (a, done) ↦ rw done (claimed-Runs (record task { version = task.version + 1 }) _)
        | inr (x, lost) ↦ rw lost refl
      ]

  popped-Runs :
      (task_id : String) (w : World)
      → Runs 8
          (popped task_id)
          ((parsed ext worker (ext.uuid_parse task_id) >>= find_task_by_id) >>= λ task.
            if task.skip_hint
            then handle_skipped_task ext worker task
            else (claim_task ext worker task >>= run_claimed ext worker ctx))
          w
  unfolding until_idle replies
  popped-Runs task_id w = elim (Option-cases (ext.uuid_parse task_id)) [
    | inl invalid ↦ rw invalid refl
    | inr (id, valid) ↦ elim (Result-cases (find_task_by_id id w).0) [
      | inl (task, found) ↦
          rw (valid, found) (fetched-Runs task.skip_hint task (find_task_by_id id w).1)
      | inr (x, missing) ↦ rw (valid, missing) refl
    ]
  ]

  -- A thread that is alone does in at most nine steps what ProcessNextTask does, whatever fails, and
  -- is idle again.
  pub until_idle-process_next_task :
      (w : World)
      → (advance ext worker ctx idle >>= until_idle ext worker 8 ctx) w
        ≡ (ok idle, (process_next_task ext worker ctx w).1)
  unfolding process_next_task pop_and_fetch_task replies advance until_idle find_task_by_id
  until_idle-process_next_task w = elim (Result-cases (pop worker.queue w).0) [
    | inl (task_id, found) ↦ rw found (popped-Runs task_id (pop worker.queue w).1)
    | inr (x, nothing) ↦ rw nothing refl
  ]
