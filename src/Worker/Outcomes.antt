-- ===== src/Worker/Outcomes.antt =====
-- What a claimed task leaves behind: the messages of internal/worker/worker.go.
use go_tempo.Base.{
  ℕ, ◌+◌, ◌<◌, ◌≡◌, refl, ap, ◌∙◌, false, String, List, [], ◌∷◌, ◌++◌, arith, Option, none, some,
  length, ◌==◌, Bool-cases, inl, inr,
}
use go_tempo.Domain.{Task, can_retry}
use go_tempo.External.{External, error_output}
use go_tempo.World.{
  World, M, Error, Result, ok, err, failure, actions, replies, calm-elim, attempt, ◌>>=◌,
  worker_active_inc,
}
use go_tempo.Repository.Rows.{update_where, count_where, has_version}
use go_tempo.Repository.Tasks.{
  mark_failed, mark_completed, update_tasks, json_ok, increment_retry_count,
}
use go_tempo.Repository.Workflows.{update_status}
use go_tempo.Redis.Queue.{RedisQueue, main_queue, retry_queue, push}
use go_tempo.Redis.EventBus.{publish_task_completed, publish_task_terminated}
use go_tempo.Worker.Failures.{failed_as}
use go_tempo.Worker.Registry.{Context, TaskHandler, lookup}
use go_tempo.Worker.Process.{
  Worker, settle, mark_task_failed_permanently, handle_task_failure, handle_task_success,
  retry_task, reject_unknown_action, execute_task_action, run_claimed, returned, error_text,
}

-- All that waits in the lists and channels.
abbrev pub messages : World → ℕ
messages w = length w.pending + length w.retry + length w.completed + length w.terminated

length-snoc : {A : Type 0} (xs : List A) (x : A) → length (xs ++ x ∷ []) ≡ length xs + 1
length-snoc [] x = refl
length-snoc (y ∷ xs) x = omega (arith, length-snoc xs x)

-- A task that is marked keeps its id and its version.
count-fail :
    (id version : ℕ) (message : String) (ts : List Task)
    → count_where (has_version id version) (update_where (λ t. t.id == id) (failed_as message) ts)
      ≡ count_where (has_version id version) ts
unfolding count_where update_where
count-fail id version message [] = refl
count-fail id version message (t ∷ ts) = ground (arith, count-fail id version message ts)

module _ (ext : External) (worker : Worker) (task : Task) where
  success-messages :
      (output : String) (w : World)
      → messages (handle_task_success ext worker task output (record w { outages = [] })).1
        ≡ messages w + 1
  unfolding handle_task_success mark_completed update_tasks json_ok publish_task_completed actions
  success-messages output w = elim (Bool-cases (ext.jsonb_valid output)) [
    | inl valid ↦ rw valid (omega (arith, length-snoc w.completed _))
    | inr invalid ↦ rw invalid (omega (arith, length-snoc w.completed _))
  ]

  failed-messages :
      (e : Error) (w : World)
      → messages (mark_task_failed_permanently ext worker task e (record w { outages = [] })).1
        ≡ messages w + 1
  unfolding mark_task_failed_permanently mark_failed update_tasks json_ok update_status
      publish_task_terminated actions
  failed-messages e w = elim (Bool-cases (ext.jsonb_valid (error_output (error_text e)))) [
    | inl valid ↦ rw valid (omega (arith, length-snoc w.terminated _))
    | inr invalid ↦ rw invalid (omega (arith, length-snoc w.terminated _))
  ]

  retry-messages :
      (q : RedisQueue) (w : World)
      → worker.retry_queue ≡ q
      → (count_where (has_version task.id task.version) w.tasks == 0) ≡ false
      → messages (retry_task ext worker task (record w { outages = [] })).1 ≡ messages w + 1
  unfolding retry_task increment_retry_count update_tasks push actions
  retry-messages main_queue w e present = rw (present, e) (omega (arith, length-snoc w.pending _))
  retry-messages retry_queue w e present = rw (present, e) (omega (arith, length-snoc w.retry _))

  settle-messages :
      (r : Result String) (w : World)
      → (count_where (has_version task.id task.version) w.tasks == 0) ≡ false
      → messages (settle ext worker task r (record w { outages = [] })).1 ≡ messages w + 1
  unfolding handle_task_failure
  settle-messages (ok output) w present = success-messages output w
  settle-messages (err e) w present = elim (Bool-cases (can_retry task task.max_retries)) [
    | inl again ↦ rw again (retry-messages worker.retry_queue w refl present)
    | inr never ↦ rw never (failed-messages e w)
  ]

  execute-known :
      (ctx : Context) (handler : TaskHandler) (w : World)
      → lookup worker.registry task.action ≡ some handler
      → execute_task_action ext worker ctx task w ≡ (handler ctx task.input, w)
  unfolding execute_task_action replies
  execute-known ctx handler w known = rw known (returned-eq (handler ctx task.input))
    where
      returned-eq : (r : Result String) → returned ext worker r w ≡ (r, w)
      returned-eq (ok output) = refl
      returned-eq (err e) = refl

  run_claimed-messages :
      (ctx : Context) (w : World)
      → messages (run_claimed ext worker ctx (some task) w).1
        ≡ messages
            ((attempt (execute_task_action ext worker ctx task) >>= settle ext worker task)
              (record w { metrics = worker_active_inc worker.worker_id ∷ w.metrics })).1
  unfolding run_claimed replies
  run_claimed-messages ctx w = refl

  settle-calm :
      (r : Result String) (w : World)
      → w.outages ≡ []
      → (count_where (has_version task.id task.version) w.tasks == 0) ≡ false
      → messages (settle ext worker task r w).1 ≡ messages w + 1
  settle-calm r =
      calm-elim
        (λ w.
          (count_where (has_version task.id task.version) w.tasks == 0) ≡ false
          → messages (settle ext worker task r w).1 ≡ messages w + 1)
        (settle-messages r)

  -- What a worker does for an action that is not in the registry, before it fails the task.
  rejected :
      (w : World)
      → ((reject_unknown_action ext worker task (record w { outages = [] })).0
          ≡ err (failure "unknown action"))
        × ((reject_unknown_action ext worker task (record w { outages = [] })).1.outages ≡ [])
        × (messages (reject_unknown_action ext worker task (record w { outages = [] })).1
            ≡ messages w + 1)
        × (count_where
              (has_version task.id task.version)
              (reject_unknown_action ext worker task (record w { outages = [] })).1.tasks
            ≡ count_where (has_version task.id task.version) w.tasks)
  unfolding reject_unknown_action mark_failed update_tasks json_ok update_status
      publish_task_terminated actions
  rejected w = elim (Bool-cases (ext.jsonb_valid (error_output "unknown action"))) [
    | inl valid ↦ rw valid (
      refl,
      refl,
      omega (arith, length-snoc w.terminated _),
      count-fail task.id task.version "unknown action" w.tasks,
    )
    | inr invalid ↦ rw invalid (refl, refl, omega (arith, length-snoc w.terminated _), refl)
  ]

-- How many messages a claimed task leaves.
abbrev pub expected : Option TaskHandler → ℕ
expected (some handler) = 1
expected none = 2

attempted :
    {A B : Type 0} (m : M A) (f : Result A → M B) (v : World)
    → (attempt m >>= f) v ≡ f (m v).0 (m v).1
unfolding replies
attempted m f v = refl

execute-unknown :
    (ext : External) (worker : Worker) (task : Task) (ctx : Context) (v : World)
    → lookup worker.registry task.action ≡ none
    → execute_task_action ext worker ctx task v ≡ reject_unknown_action ext worker task v
unfolding execute_task_action
execute-unknown ext worker task ctx v unknown = rw unknown refl

calm-messages :
    (ext : External) (worker : Worker) (task : Task) (ctx : Context) (found : Option TaskHandler)
    (w : World)
    → lookup worker.registry task.action ≡ found
    → (count_where (has_version task.id task.version) w.tasks == 0) ≡ false
    → messages (run_claimed ext worker ctx (some task) (record w { outages = [] })).1
      ≡ messages w + expected found
calm-messages ext worker task ctx found w e present =
    run_claimed-messages ext worker task ctx (record w { outages = [] })
    ∙ ap (λ p. messages p.1)
        (attempted (execute_task_action ext worker ctx task) (settle ext worker task) v)
    ∙ by found e
  where
    v : World
    v = record w { outages = []; metrics = worker_active_inc worker.worker_id ∷ w.metrics }

    by :
        (found : Option TaskHandler)
        → lookup worker.registry task.action ≡ found
        → messages
            (settle ext worker task
              (execute_task_action ext worker ctx task v).0
              (execute_task_action ext worker ctx task v).1).1
          ≡ messages w + expected found
    by (some handler) e =
        ap (λ p. messages (settle ext worker task p.0 p.1).1)
          (execute-known ext worker task ctx handler v e)
        ∙ settle-calm ext worker task (handler ctx task.input) v refl present
    by none e =
        let (failed, quiet, one, same) =
          rejected ext worker task
            (record w { metrics = worker_active_inc worker.worker_id ∷ w.metrics }) in
        let after = (reject_unknown_action ext worker task v).1 in
        ap (λ p. messages (settle ext worker task p.0 p.1).1)
          (execute-unknown ext worker task ctx v e)
        ∙ ap (λ r. messages (settle ext worker task r after).1) failed
        ∙ settle-calm ext worker task (err (failure "unknown action")) after quiet
            (ap (λ n. n == 0) same ∙ present)
        ∙ omega (arith, one)

-- With services that answer, running a claimed task whose row has the claimed version leaves exactly
-- one message more in the lists and channels together if its action is in the registry, whether the
-- action succeeds, fails or fails for good; and exactly two more if its action is not in it.
pub run_claimed-messages_lem :
    (ext : External) (worker : Worker) (task : Task) (ctx : Context) (w : World)
    → w.outages ≡ []
    → 0 < count_where (has_version task.id task.version) w.tasks
    → messages (run_claimed ext worker ctx (some task) w).1
      ≡ messages w + expected (lookup worker.registry task.action)
run_claimed-messages_lem ext worker task ctx =
    calm-elim
      (λ w.
        0 < count_where (has_version task.id task.version) w.tasks
        → messages (run_claimed ext worker ctx (some task) w).1
          ≡ messages w + expected (lookup worker.registry task.action))
      (λ w present.
        calm-messages ext worker task ctx (lookup worker.registry task.action) w refl
          (ground arith))
