-- ===== src/Completion/Work.antt =====
-- ProcessNextTask for a task whose action succeeds, with services that answer.
use go_tempo.Base.{
  ℕ, ◌+◌, ◌==◌, ◌≡◌, refl, ap, ◌∙◌, true, false, String, List, [], ◌∷◌, ◌++◌, some, if◌then◌else◌,
  first_where,
}
use go_tempo.Domain.{Task, TaskStatus, raw, TaskCompletedEvent}
use go_tempo.External.{External}
use go_tempo.World.{World, M, ok, actions, ◌>>=◌, bind-eq}
use go_tempo.Repository.Rows.{update_where, count_where, has_version}
use go_tempo.Repository.Tasks.{find_task_by_id, claim_task, update_tasks, mark_completed, json_ok}
use go_tempo.Redis.Queue.{pop, take_front}
use go_tempo.Redis.EventBus.{publish_task_completed}
use go_tempo.Worker.Registry.{Context, TaskHandler, TaskRegistry, lookup}
use go_tempo.Worker.Process
use go_tempo.Worker.Process.{
  Worker, pop_and_fetch_task, execute_task_action, handle_task_success, handle_skipped_task,
  run_claimed, process_next_task,
}
use go_tempo.System.{main_worker}

abbrev pub claimed_as : (me : String) → Task → Task → Task
claimed_as me t u = record u {
  status = TaskStatus.running;
  worker_id = some me;
  version = t.version + 1;
}

abbrev pub completed_as : String → Task → Task
completed_as output u = record u { status = TaskStatus.completed; output = raw output }

abbrev pub event_of : Task → TaskCompletedEvent
event_of t = record { execution_id = t.execution_id; task_id = t.id; ref_id = t.ref_id }

-- The rows after the claim and the end.
abbrev pub worked_rows : (me output : String) → Task → List Task → List Task
worked_rows me output t ts =
    update_where (λ u. u.id == t.id) (completed_as output)
      (update_where (has_version t.id t.version) (claimed_as me t) ts)

module _ (ext : External) (registry : TaskRegistry) (me : String) (ctx : Context) (w : World)
    (s : String) (later : List String) where
  -- The worlds before and after the pop.
  abbrev pub before : World
  before = record w { pending = s ∷ later; outages = [] }

  abbrev popped : World
  popped = record w { pending = later; outages = [] }

  fetched :
      (id : ℕ) (t : Task)
      → ext.uuid_parse s ≡ some id
      → first_where (λ u. u.id == id) w.tasks ≡ some t
      → pop_and_fetch_task ext (main_worker registry me) before ≡ (ok t, popped)
  unfolding pop_and_fetch_task pop take_front find_task_by_id actions
  fetched id t parsed found = rw (parsed, found) refl

  claimed :
      (t : Task)
      → (count_where (has_version t.id t.version) w.tasks == 0) ≡ false
      → Process.claim_task ext (main_worker registry me) t popped ≡ (
        ok (some (record t { version = t.version + 1 })),
        record popped {
          tasks = update_where (has_version t.id t.version) (claimed_as me t) w.tasks;
        },
      )
  unfolding Process.claim_task claim_task update_tasks actions
  claimed t present = rw present refl

  succeeded :
      (t : Task) (handler : TaskHandler) (output : String) (v : World)
      → lookup registry t.action ≡ some handler
      → handler ctx t.input ≡ ok output
      → ext.jsonb_valid output ≡ true
      → (ms : _) × (run_claimed ext
            (main_worker registry me)
            ctx
            (some (record t { version = t.version + 1 }))
            (record v { outages = [] })
          ≡ (
            ok tt,
            record v {
              tasks = update_where (λ u. u.id == t.id) (completed_as output) v.tasks;
              completed = v.completed ++ event_of t ∷ [];
              outages = [];
              metrics = ms;
            },
          ))
  unfolding run_claimed execute_task_action handle_task_success mark_completed json_ok update_tasks
      publish_task_completed actions
  succeeded t handler output v known works valid = rw (known, works, valid) (_, refl)

  pub process_next_task-succeeds :
      (id : ℕ) (t : Task) (handler : TaskHandler) (output : String)
      → ext.uuid_parse s ≡ some id
      → first_where (λ u. u.id == id) w.tasks ≡ some t
      → (count_where (has_version t.id t.version) w.tasks == 0) ≡ false
      → t.skip_hint ≡ false
      → lookup registry t.action ≡ some handler
      → handler ctx t.input ≡ ok output
      → ext.jsonb_valid output ≡ true
      → (ms : _) × (process_next_task ext (main_worker registry me) ctx before ≡ (
        ok tt,
        record w {
          tasks = worked_rows me output t w.tasks;
          pending = later;
          completed = w.completed ++ event_of t ∷ [];
          outages = [];
          metrics = ms;
        },
      ))
  unfolding process_next_task
  process_next_task-succeeds id t handler output parsed found present unskipped known works valid =
      let worker = main_worker registry me in
      let claim : Task → M Unit =
        λ u. Process.claim_task ext worker u >>= run_claimed ext worker ctx in
      let next : Task → M Unit =
        λ u. if u.skip_hint then handle_skipped_task ext worker u else claim u in
      let v = record popped {
        tasks = update_where (has_version t.id t.version) (claimed_as me t) w.tasks;
      } in
      let (ms, run) = succeeded t handler output v known works valid in
      (
        ms,
        bind-eq (pop_and_fetch_task ext worker) next before popped t (fetched id t parsed found)
            ∙ ap (λ b. (if b then handle_skipped_task ext worker t else claim t) popped) unskipped
            ∙ bind-eq (Process.claim_task ext worker t) (run_claimed ext worker ctx) popped v _
                (claimed t present)
            ∙ run,
      )
