-- ===== src/Ordering/Statements.antt =====
-- The statements of the repositories, the lists and the channels.
use go_tempo.Base.{ℕ, ◌+◌, ◌≡◌, refl, ◌==◌, String, Bool, true, List, [], ◌∷◌, some, first_where}
use go_tempo.Domain.{
  Json, Task, TaskStatus, WorkflowStatus, TaskCompletedEvent, TaskTerminatedEvent, raw,
}
use go_tempo.External.{External, error_output, skipped_output}
use go_tempo.World.{gets, write_tasks}
use go_tempo.Repository.Rows.{update_where, count_where, has_version}
use go_tempo.Repository.Tasks.{
  update_tasks, find_task_by_id, claim_task, increment_retry_count, mark_completed, mark_failed,
  mark_skipped, json_ok, conflict, counting_errors,
}
use go_tempo.Repository.Workflows.{update_status}
use go_tempo.Redis.Queue.{
  RedisQueue, main_queue, retry_queue, items, write_items, push, pop, take_front,
}
use go_tempo.Redis.EventBus.{publish_task_completed, publish_task_terminated}
use go_tempo.Ordering.Rows.{
  count_where-Permᴰ, update_where-Permᴰ, first_where-Permᴰ, update_where-IsKeyed,
}
use go_tempo.Ordering.Rules.{
  Orderless, orderless_rules, pure-Orderless, bind-Orderless, gets-Orderless, on_error-Orderless,
  inc-Orderless,
}

pub counts-Orderless : (p : Task → Bool) → Orderless (gets (λ w. count_where p w.tasks))
counts-Orderless p = gets-Orderless _ (λ w ts h. count_where-Permᴰ p h.1)

finds-Orderless : (id : ℕ) → Orderless (gets (λ w. first_where (λ t. t.id == id) w.tasks))
finds-Orderless id = gets-Orderless _ (λ w ts h. first_where-Permᴰ id h.1 h.0)

writes-Orderless :
    (p : Task → Bool) (f : Task → Task)
    → ((t : Task) → (f t).id ≡ t.id)
    → Orderless (write_tasks (update_where p f))
unfolding write_tasks
writes-Orderless p f same = record {
  keep = λ w ts h. (
    update_where p f ts,
    refl,
    (update_where-IsKeyed p f w.tasks same h.0, update_where-Permᴰ p f h.1),
  );
}

update_tasks-Orderless :
    (valid : Bool) (p : Task → Bool) (f : Task → Task)
    → ((t : Task) → (f t).id ≡ t.id)
    → Orderless (update_tasks valid p f)
unfolding update_tasks
update_tasks-Orderless valid p f same = bind-Orderless _ _ (search orderless_rules) (λ _.
    bind-Orderless _ _ (search orderless_rules) (λ _.
      bind-Orderless _ _ (counts-Orderless p)
        (λ rows. bind-Orderless _ _ (writes-Orderless p f same) (λ _. pure-Orderless rows))))

counted-Orderless :
    (operation : String) (valid : Bool) (p : Task → Bool) (f : Task → Task)
    → ((t : Task) → (f t).id ≡ t.id)
    → Orderless (counting_errors operation (update_tasks valid p f))
counted-Orderless operation valid p f same =
    on_error-Orderless _ _ (update_tasks-Orderless valid p f same) (inc-Orderless _)

pub find_task_by_id-Orderless : (id : ℕ) → Orderless (find_task_by_id id)
unfolding find_task_by_id
find_task_by_id-Orderless id = search (orderless_rules, finds-Orderless)

conflict-Orderless : (operation : String) → Orderless (conflict operation)
conflict-Orderless operation = search orderless_rules

pub claim_task-Orderless :
    (id : ℕ) (me : String) (version : ℕ) → Orderless (claim_task id me version)
unfolding claim_task
claim_task-Orderless id me version =
    let claims =
      counted-Orderless "claim_task" true (has_version id version)
        (λ t. record t { status = TaskStatus.running; worker_id = some me; version = version + 1 })
        (λ t. refl) in
    bind-Orderless _ _ claims (λ rows. search (orderless_rules, conflict-Orderless))

pub increment_retry_count-Orderless :
    (id version : ℕ) → Orderless (increment_retry_count id version)
unfolding increment_retry_count
increment_retry_count-Orderless id version =
    let retries =
      counted-Orderless "increment_retry" true (has_version id version)
        (λ t. record t {
          retry_count = t.retry_count + 1;
          status = TaskStatus.pending;
          version = version + 1;
        })
        (λ t. refl) in
    bind-Orderless _ _ retries (λ rows. search (orderless_rules, conflict-Orderless))

module _ (ext : External) where
  pub mark_completed-Orderless : (id : ℕ) (output : Json) → Orderless (mark_completed ext id output)
  unfolding mark_completed
  mark_completed-Orderless id output =
      let ends =
        counted-Orderless "mark_completed" (json_ok ext output) (λ t. t.id == id)
          (λ t. record t { status = TaskStatus.completed; output = output }) (λ t. refl) in
      bind-Orderless _ _ ends (λ _. pure-Orderless tt)

  pub mark_failed-Orderless : (id : ℕ) (message : String) → Orderless (mark_failed ext id message)
  unfolding mark_failed
  mark_failed-Orderless id message =
      let output = raw (error_output message) in
      let ends =
        counted-Orderless "mark_failed" (json_ok ext output) (λ t. t.id == id)
          (λ t. record t { status = TaskStatus.failed; last_error = message; output = output })
          (λ t. refl) in
      bind-Orderless _ _ ends (λ _. pure-Orderless tt)

  pub mark_skipped-Orderless : (id : ℕ) → Orderless (mark_skipped ext id)
  unfolding mark_skipped
  mark_skipped-Orderless id =
      let output = raw skipped_output in
      let ends =
        counted-Orderless "mark_skipped" (json_ok ext output) (λ t. t.id == id)
          (λ t. record t { status = TaskStatus.skipped; output = output }) (λ t. refl) in
      bind-Orderless _ _ ends (λ _. pure-Orderless tt)

pub update_status-Orderless :
    (id : ℕ) (status : WorkflowStatus) → Orderless (update_status id status)
unfolding update_status
update_status-Orderless id status = search orderless_rules

write_items-Orderless :
    (q : RedisQueue) (f : List String → List String) → Orderless (write_items q f)
write_items-Orderless main_queue f = search orderless_rules
write_items-Orderless retry_queue f = search orderless_rules

items-Orderless : (q : RedisQueue) → Orderless (gets (items q))
items-Orderless main_queue = gets-Orderless _ (λ w ts h. refl)
items-Orderless retry_queue = gets-Orderless _ (λ w ts h. refl)

pub push-Orderless : (q : RedisQueue) (id : String) → Orderless (push q id)
unfolding push
push-Orderless q id = search (orderless_rules, write_items-Orderless)

take_front-Orderless : (q : RedisQueue) (l : List String) → Orderless (take_front q l)
unfolding take_front
take_front-Orderless q [] = search orderless_rules
take_front-Orderless q (id ∷ l) = search (orderless_rules, write_items-Orderless)

pub pop-Orderless : (q : RedisQueue) → Orderless (pop q)
unfolding pop
pop-Orderless q = search (orderless_rules, items-Orderless, take_front-Orderless)

pub publish_task_completed-Orderless :
    (event : TaskCompletedEvent) → Orderless (publish_task_completed event)
unfolding publish_task_completed
publish_task_completed-Orderless event = search orderless_rules

pub publish_task_terminated-Orderless :
    (event : TaskTerminatedEvent) → Orderless (publish_task_terminated event)
unfolding publish_task_terminated
publish_task_terminated-Orderless event = search orderless_rules

pub ruleset statement_rules = (
  orderless_rules, find_task_by_id-Orderless, claim_task-Orderless, increment_retry_count-Orderless,
  mark_completed-Orderless, mark_failed-Orderless, mark_skipped-Orderless, update_status-Orderless,
  push-Orderless, pop-Orderless, publish_task_completed-Orderless,
  publish_task_terminated-Orderless,
)
