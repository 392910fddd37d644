-- ===== src/System/Attempts.antt =====
-- One attempt of the retry worker at a task whose action fails.
use go_tempo.Base.{
  ℕ, ◌+◌, ◌==◌, ◌&&◌, ◌≡◌, refl, ap, ◌∙◌, Bool, true, false, String, List, [], ◌∷◌, ◌++◌, some,
  arith, Bool-cases, inl, inr, if◌then◌else◌,
}
use go_tempo.Domain.{
  Json, Task, TaskStatus, TaskTerminationType, WorkflowStatus, can_retry, new_task_terminated_event,
}
use go_tempo.External.{External, Documented, error_output}
use go_tempo.World.{worker_active_inc, bind-eq, World, M, Error, ok, err, actions, ◌>>=◌}
use go_tempo.Repository.Rows.{update_where, count_where, has_version, has_task}
use go_tempo.Repository.Locks.{count_where-absent}
use go_tempo.Repository.Tasks.{
  find_task_by_id, claim_task, update_tasks, mark_failed, json_ok, increment_retry_count,
}
use go_tempo.Repository.Workflows.{may_update, update_status}
use go_tempo.Redis.Queue.{push, pop, take_front}
use go_tempo.Redis.EventBus.{publish_task_terminated}
use go_tempo.Worker.Registry.{Context, TaskHandler, TaskRegistry, lookup}
use go_tempo.Worker.Failures.{failed_as}
use go_tempo.Worker.Process
use go_tempo.Worker.Process.{
  Worker, error_text, pop_and_fetch_task, execute_task_action, retry_task, handle_task_failure,
  mark_task_failed_permanently, run_claimed, process_next_task, handle_skipped_task,
}
use go_tempo.System.Steps.{retry_worker}

update_where-absent :
    (id : ℕ) (p : Task → Bool) (f : Task → Task) (ts : List Task)
    → ((t : Task) → (t.id == id) ≡ false → p t ≡ false)
    → has_task id ts ≡ false
    → update_where p f ts ≡ ts
unfolding update_where has_task
update_where-absent id p f [] only h = refl
update_where-absent id p f (t ∷ ts) only h = elim (Bool-cases (t.id == id)) [
  | inl same ↦ ground (arith, same, h)
  | inr other ↦ ground (arith, other, h, only t other, update_where-absent id p f ts only)
]

-- The task's row, before those that are not its own, and its id alone in the list.
abbrev pub waiting : External → Task → (others : List Task) → World → World
waiting ext t others w = record w {
  tasks = t ∷ others;
  retry = ext.uuid_string t.id ∷ [];
  outages = [];
}

abbrev pub claimed_row : (me : String) → Task → Task
claimed_row me t = record t {
  status = TaskStatus.running;
  worker_id = some me;
  version = t.version + 1;
}

-- What a failed attempt does to the row.
abbrev pub retried : (me : String) → Task → Task
retried me t = record t {
  status = TaskStatus.pending;
  worker_id = some me;
  retry_count = t.retry_count + 1;
  version = t.version + 1 + 1;
}

module _ (ext : External) (doc : Documented ext) (registry : TaskRegistry) (me : String)
    (ctx : Context) where
  fetched-waiting :
      (t : Task) (others : List Task) (w : World)
      → pop_and_fetch_task ext (retry_worker registry me) (waiting ext t others w)
        ≡ (ok t, record (waiting ext t others w) { retry = [] })
  unfolding pop_and_fetch_task pop take_front find_task_by_id actions
  fetched-waiting t others w = rw (doc.parse-string t.id) (ground arith)

  claim-waiting :
      (t : Task) (others : List Task) (w : World)
      → has_task t.id others ≡ false
      → Process.claim_task ext
          (retry_worker registry me)
          t
          (record (waiting ext t others w) { retry = [] })
        ≡ (
          ok (some (record t { version = t.version + 1 })),
          record (waiting ext (claimed_row me t) others w) { retry = [] },
        )
  unfolding Process.claim_task claim_task update_tasks count_where update_where actions
  claim-waiting t others w h =
      let absent =
        update_where-absent t.id (has_version t.id t.version)
          (λ (u : Task). record u {
            status = TaskStatus.running;
            worker_id = some me;
            version = t.version + 1;
          })
          others (λ u other. rw other refl) h in
      ground (arith, count_where-absent t.id t.version others h, absent)

  module _ (action : String) (handler : TaskHandler) (known : lookup registry action ≡ some handler)
      (e : Error) (fails : (input : Json) → handler ctx input ≡ err e) where
    execute-fails :
        (t : Task) (w : World)
        → t.action ≡ action
        → execute_task_action ext (retry_worker registry me) ctx t w ≡ (err e, w)
    unfolding execute_task_action actions
    execute-fails t w named = rw (named, known, fails t.input) refl

    -- An attempt that is not the last.
    pub retry-waiting :
        (t : Task) (others : List Task) (w : World)
        → t.action ≡ action
        → has_task t.id others ≡ false
        → can_retry t t.max_retries ≡ true
        → (ms : _) × (run_claimed ext
              (retry_worker registry me)
              ctx
              (some (record t { version = t.version + 1 }))
              (record (waiting ext (claimed_row me t) others w) { retry = [] })
            ≡ (ok tt, waiting ext (retried me t) others (record w { metrics = ms })))
    unfolding can_retry run_claimed handle_task_failure retry_task increment_retry_count
        update_tasks count_where update_where push actions
    retry-waiting t others w named h again =
        let c = record t { version = t.version + 1 } in
        let u = record (waiting ext (claimed_row me t) others w) {
          retry = [];
          metrics = worker_active_inc me ∷ w.metrics;
        } in
        let absent =
          update_where-absent t.id (has_version t.id (t.version + 1))
            (λ (x : Task). record x {
              retry_count = x.retry_count + 1;
              status = TaskStatus.pending;
              version = t.version + 1 + 1;
            })
            others (λ x other. rw other refl) h in
        let same : (t.id == t.id && t.version + 1 == t.version + 1) ≡ true = ground arith in
        rw
          (
            execute-fails c u named,
            again,
            same,
            absent,
            count_where-absent t.id (t.version + 1) others h,
          )
          (_, refl)

    -- The last attempt.
    pub fail-waiting :
        (t : Task) (others : List Task) (w : World)
        → t.action ≡ action
        → has_task t.id others ≡ false
        → can_retry t t.max_retries ≡ false
        → ext.jsonb_valid (error_output (error_text e)) ≡ true
        → (ms : _) × (run_claimed ext
              (retry_worker registry me)
              ctx
              (some (record t { version = t.version + 1 }))
              (record (waiting ext (claimed_row me t) others w) { retry = [] })
            ≡ (
              ok tt,
              record w {
                executions =
                    update_where
                      (may_update t.execution_id WorkflowStatus.failed)
                      (λ x. record x { status = WorkflowStatus.failed })
                      w.executions;
                tasks = failed_as (error_text e) (claimed_row me t) ∷ others;
                retry = [];
                outages = [];
                terminated =
                    w.terminated
                    ++ new_task_terminated_event t.execution_id t.id t.ref_id
                        TaskTerminationType.failed
                        (error_text e)
                      ∷ [];
                metrics = ms;
              },
            ))
    unfolding can_retry run_claimed handle_task_failure mark_task_failed_permanently mark_failed
        json_ok update_status publish_task_terminated update_tasks count_where update_where actions
    fail-waiting t others w named h never valid =
        let c = record t { version = t.version + 1 } in
        let u = record (waiting ext (claimed_row me t) others w) {
          retry = [];
          metrics = worker_active_inc me ∷ w.metrics;
        } in
        let absent =
          update_where-absent t.id (λ x. x.id == t.id) (failed_as (error_text e)) others
            (λ x other. other) h in
        let same : (t.id == t.id) ≡ true = ground arith in
        rw (execute-fails c u named, never, valid, same, absent) (_, refl)

  pub step-waiting :
      (t : Task) (others : List Task) (w : World)
      → has_task t.id others ≡ false
      → t.skip_hint ≡ false
      → process_next_task ext (retry_worker registry me) ctx (waiting ext t others w)
        ≡ run_claimed ext
            (retry_worker registry me)
            ctx
            (some (record t { version = t.version + 1 }))
            (record (waiting ext (claimed_row me t) others w) { retry = [] })
  unfolding process_next_task
  step-waiting t others w h unskipped =
      let worker = retry_worker registry me in
      let claim : Task → M Unit =
        λ u. Process.claim_task ext worker u >>= run_claimed ext worker ctx in
      let next : Task → M Unit =
        λ u. if u.skip_hint then handle_skipped_task ext worker u else claim u in
      let v = record (waiting ext t others w) { retry = [] } in
      bind-eq (pop_and_fetch_task ext worker) next (waiting ext t others w) v t
        (fetched-waiting t others w)
      ∙ ap (λ b. (if b then handle_skipped_task ext worker t else claim t) v) unskipped
      ∙ bind-eq (Process.claim_task ext worker t) (run_claimed ext worker ctx) v _ _
          (claim-waiting t others w h)
