-- ===== src/System/Handouts.antt =====
-- The coordinator hands out a task only when it releases it.
use go_tempo.Base.{ℕ, ◌≡◌, refl, List, [], ◌∷◌, String, Option, none, some, pred_ℤ, null, inl, inr}
use go_tempo.Domain.{
  Task, TaskCompletedEvent, TaskTerminatedEvent, TaskTerminationType, WorkflowStatus,
}
use go_tempo.External.{External, Documented}
use go_tempo.World.{
  World, M, Result-cases, OnTables, OnQueues, Preserves, preserves_rules, queues_rules, inc, pure,
  ◌>>=◌, ◌>>◌, bind-ok, bind-err, bind-Preserves, if-Preserves, coordinator_tasks_unblocked,
  coordinator_skip_propagations, coordinator_events_processed,
}
use go_tempo.Repository.Dag.{
  decrement_row, taint_row, decrement_query, decrement_and_get_ready_tasks,
  decrement_and_set_skip_hint,
}
use go_tempo.Repository.Dag.{are_all_tasks_completed}
use go_tempo.Repository.Workflows.{update_status}
use go_tempo.Repository.Evolution.{Methods, methods_under, progress_steps, TaskProgress}
use go_tempo.Repository.Waiting.{
  decrement_query-Waits, receive_completed-Waits, receive_terminated-Waits,
  are_all_tasks_completed-Waits, update_status-Waits,
}
use go_tempo.Redis.{redis_rules}
use go_tempo.Redis.EventBus.{receive_completed, receive_terminated}
use go_tempo.Coordinator.{
  for_each, push_ready, check_if_workflow_finished, count_failed, handle_task_completed,
  handle_task_terminated, on_completed, on_terminated, coordinate_completed, coordinate_terminated,
}
use go_tempo.System.Handlers.{check_if_workflow_finished-keeps, for_each-keeps, count_failed-keeps}
use go_tempo.System.Covered.{
  Covers, Covers-closed, IsCovered, kept, push_ready-IsCovered, query-IsCovered, then-keeps,
}

module _ {Q : List String → List String → Type 0} where
  for_each-Waits :
      (ids : List ℕ) (body : M Unit)
      → Preserves (OnQueues Q) body
      → Preserves (OnQueues Q) (for_each ids body)
  unfolding for_each
  for_each-Waits [] body h = search queues_rules
  for_each-Waits (id ∷ ids) body h = search (queues_rules, h, for_each-Waits ids body h)

  check-Waits : (ext : External) (id : ℕ) → Preserves (OnQueues Q) (check_if_workflow_finished id)
  unfolding check_if_workflow_finished
  check-Waits ext id =
      let counts : (id : ℕ) → Preserves (OnQueues Q) (are_all_tasks_completed id) =
        are_all_tasks_completed-Waits ext in
      let updates : (id : ℕ) (status : WorkflowStatus)
          → Preserves (OnQueues Q) (update_status id status) =
        update_status-Waits ext in
      search (queues_rules, counts, updates)

  count_failed-Waits :
      (ext : External) (t : TaskTerminationType) → Preserves (OnQueues Q) (count_failed ext t)
  count_failed-Waits ext TaskTerminationType.failed = search queues_rules
  count_failed-Waits ext TaskTerminationType.skipped = search queues_rules

module _ (ext : External) (doc : Documented ext) (rest : ℕ → ℕ) where
  abbrev Clear : World → Type 0
  Clear = IsCovered ext doc rest []

  abbrev methods : (need : ℕ → ℕ) → Methods ext (Covers need)
  methods need = methods_under ext progress_steps (Covers-closed ext need)

  for_each-Clear :
      (ids : List ℕ) (body : M Unit)
      → ((need : ℕ → ℕ) → Preserves (OnTables (Covers need)) body)
      → ((Q : List String → List String → Type 0) → Preserves (OnQueues Q) body)
      → Preserves Clear (for_each ids body)
  for_each-Clear ids body tables waits =
      kept ext doc rest [] (for_each ids body)
        (λ need. for_each-keeps ext (methods need) ids body (tables need))
        (λ Q. for_each-Waits ids body (waits Q))

  check-Clear : (id : ℕ) → Preserves Clear (check_if_workflow_finished id)
  check-Clear id =
      kept ext doc rest [] (check_if_workflow_finished id)
        (λ need. check_if_workflow_finished-keeps ext (methods need) id) (λ Q. check-Waits ext id)

  count_failed-Clear : (t : TaskTerminationType) → Preserves Clear (count_failed ext t)
  count_failed-Clear t =
      kept ext doc rest [] (count_failed ext t) (λ need. count_failed-keeps ext (methods need) t)
        (λ Q. count_failed-Waits ext t)

  -- A query, the pushes of what it releases, and what follows.
  query-Clear :
      (f : Task → Task) (operation : String)
      → ((t : Task) → TaskProgress t (f t))
      → ((t : Task) → (f t).in_degree ≡ pred_ℤ t.in_degree)
      → (execution_id : ℕ) (r : String)
      → ((need : ℕ → ℕ)
          → Preserves (OnTables (Covers need)) (decrement_query ext f operation execution_id r))
      → (k : List ℕ → M Unit) → ((l : List ℕ) → Preserves Clear (k l))
      → Preserves Clear
          (decrement_query ext f operation execution_id r >>= λ l. push_ready ext l >> k l)
  query-Clear f operation step down execution_id r tables k keep_k = record {
    keep = λ w c.
        let query = decrement_query ext f operation execution_id r in
        elim (Result-cases (query w).0) [
          | inl (l, done) ↦ rw (bind-ok query (λ l. push_ready ext l >> k l) w l done) (
              then-keeps (push_ready ext l) (λ _. k l) (query w).1
                (push_ready-IsCovered ext doc rest l (query w).1
                  (query-IsCovered ext doc rest f operation step down execution_id r w l c done))
                (λ _. keep_k l))
          | inr (e, lost) ↦ rw (bind-err query (λ l. push_ready ext l >> k l) w e lost) (
              (kept ext doc rest [] query tables
                  (λ Q. decrement_query-Waits ext f operation execution_id r)).keep
                w c)
        ];
  }

  completed-Clear : (event : TaskCompletedEvent) → Preserves Clear (handle_task_completed ext event)
  unfolding handle_task_completed decrement_and_get_ready_tasks decrement_row
  completed-Clear event =
      query-Clear decrement_row "decrement_ready" progress_steps.decrements_row (λ t. refl)
        event.execution_id event.ref_id
        (λ need. (methods need).decrements event.execution_id event.ref_id) _
        (λ l.
          bind-Preserves _ _
            (for_each-Clear l (inc coordinator_tasks_unblocked) (λ need. search redis_rules)
              (λ Q. search queues_rules))
            (λ _.
              if-Preserves (null l) _ (pure tt) (λ _. check-Clear event.execution_id)
                (λ _. search preserves_rules)))

  terminated-Clear :
      (event : TaskTerminatedEvent) → Preserves Clear (handle_task_terminated ext event)
  unfolding handle_task_terminated decrement_and_set_skip_hint taint_row decrement_row
  terminated-Clear event =
      query-Clear taint_row "decrement_skip" progress_steps.taints_row (λ t. refl)
        event.execution_id event.ref_id
        (λ need. (methods need).taints event.execution_id event.ref_id) _
        (λ l.
          bind-Preserves _ _
            (for_each-Clear l (inc coordinator_skip_propagations >> inc coordinator_tasks_unblocked)
              (λ need. search redis_rules) (λ Q. search queues_rules))
            (λ _. count_failed-Clear event.type))

  on_completed-Clear : (o : Option TaskCompletedEvent) → Preserves Clear (on_completed ext o)
  on_completed-Clear none = search preserves_rules
  on_completed-Clear (some event) =
      bind-Preserves _ _
        (kept ext doc rest [] (inc (coordinator_events_processed "completed"))
          (λ need. search redis_rules) (λ Q. search queues_rules))
        (λ _. completed-Clear event)

  pub coordinate_completed-Clear : Preserves Clear (coordinate_completed ext)
  unfolding coordinate_completed
  coordinate_completed-Clear =
      bind-Preserves _ _
        (kept ext doc rest [] receive_completed (λ need. search redis_rules)
          (λ Q. receive_completed-Waits ext))
        on_completed-Clear

  on_terminated-Clear : (o : Option TaskTerminatedEvent) → Preserves Clear (on_terminated ext o)
  on_terminated-Clear none = search preserves_rules
  on_terminated-Clear (some event) =
      bind-Preserves _ _
        (kept ext doc rest [] (inc (coordinator_events_processed "terminated"))
          (λ need. search redis_rules) (λ Q. search queues_rules))
        (λ _. terminated-Clear event)

  pub coordinate_terminated-Clear : Preserves Clear (coordinate_terminated ext)
  unfolding coordinate_terminated
  coordinate_terminated-Clear =
      bind-Preserves _ _
        (kept ext doc rest [] receive_terminated (λ need. search redis_rules)
          (λ Q. receive_terminated-Waits ext))
        on_terminated-Clear
