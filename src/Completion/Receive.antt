-- ===== src/Completion/Receive.antt =====
-- The round of the coordinator in which it receives the end of a task, with services that answer.
use go_tempo.Base.{
  ℕ, ◌==◌, ◌≡◌, refl, sym, ap, ◌∙◌, true, false, List, [], ◌∷◌, ◌++◌, map, null, if◌then◌else◌,
}
use mathlib.Core.List.{append-nil, append_assoc}
use go_tempo.Domain.{TaskCompletedEvent, WorkflowStatus}
use go_tempo.External.{External, Documented, IsPlain}
use go_tempo.World.{
  World, M, Metric, ok, inc, pure, actions, replies, bind-eq, redis_queue_push,
  coordinator_tasks_unblocked, coordinator_events_processed, redis_messages_received,
}
use go_tempo.Repository.Rows.{update_where, count_where}
use go_tempo.Repository.Dag.{
  decrement_row, ready_ids, depends_on, decrement_query, decrement_and_get_ready_tasks,
  are_all_tasks_completed, is_unfinished,
}
use go_tempo.Repository.Workflows.{may_update, update_status}
use go_tempo.Redis.Queue.{push}
use go_tempo.Redis.EventBus.{receive_completed, forward_completed}
use go_tempo.Coordinator.{
  for_each, push_ready, check_if_workflow_finished, handle_task_completed, coordinate_completed,
}

pub check-done :
    (id : ℕ) (w : World)
    → (count_where (is_unfinished id) w.tasks == 0) ≡ true
    → (ms : _) × (check_if_workflow_finished id (record w { outages = [] }) ≡ (
      ok tt,
      record w {
        executions =
            update_where
              (may_update id WorkflowStatus.completed)
              (λ e. record e { status = WorkflowStatus.completed })
              w.executions;
        outages = [];
        metrics = ms;
      },
    ))
unfolding check_if_workflow_finished are_all_tasks_completed update_status actions
check-done id w done = rw done (_, refl)

pub check-left :
    (id : ℕ) (w : World)
    → (count_where (is_unfinished id) w.tasks == 0) ≡ false
    → check_if_workflow_finished id (record w { outages = [] }) ≡ (ok tt, record w { outages = [] })
unfolding check_if_workflow_finished are_all_tasks_completed actions
check-left id w left = rw left refl

for_each-eq :
    (m : Metric) (ids : List ℕ) (w : World)
    → (ms : _) × (for_each ids (inc m) w ≡ (ok tt, record w { metrics = ms }))
unfolding for_each replies
for_each-eq m [] w = (w.metrics, refl)
for_each-eq m (id ∷ ids) w = for_each-eq m ids (record w { metrics = m ∷ w.metrics })

push_ready-eq :
    (ext : External) (ids : List ℕ) (w : World)
    → (ms : _) × (push_ready ext ids (record w { outages = [] }) ≡ (
      ok tt,
      record w { pending = w.pending ++ map ext.uuid_string ids; outages = []; metrics = ms },
    ))
unfolding push_ready push actions
push_ready-eq ext [] w = (
  w.metrics,
  ap (λ p. (ok tt, record w { pending = p; outages = [] })) (sym (append-nil w.pending)),
)
push_ready-eq ext (id ∷ ids) w =
    let (ms, rest) = push_ready-eq ext ids (record w {
      pending = w.pending ++ ext.uuid_string id ∷ [];
      metrics = redis_queue_push "success" ∷ w.metrics;
    }) in
    (
      ms,
      rest
          ∙ ap (λ p. (ok tt, record w { pending = p; outages = []; metrics = ms }))
              (append_assoc w.pending (ext.uuid_string id ∷ []) (map ext.uuid_string ids)),
    )

module _ (ext : External) (event : TaskCompletedEvent) (w : World) where
  abbrev pub ready : List ℕ
  ready = ready_ids (depends_on ext event.execution_id event.ref_id) decrement_row w.tasks

  -- The world after the pushes, but for the counters.
  abbrev pub unblocked : List Metric → World
  unblocked ms = record w {
    tasks = update_where (depends_on ext event.execution_id event.ref_id) decrement_row w.tasks;
    pending = w.pending ++ map ext.uuid_string ready;
    outages = [];
    metrics = ms;
  }

  abbrev pub finish : M (Unit {0})
  finish = if null ready then check_if_workflow_finished event.execution_id else pure tt

  module _ (doc : Documented ext) (plain : IsPlain event.ref_id) where
    pub query-eq :
        (ms : _) × (decrement_and_get_ready_tasks ext event.execution_id event.ref_id
            (record w { outages = [] })
          ≡ (
            ok ready,
            record w {
              tasks =
                  update_where
                    (depends_on ext event.execution_id event.ref_id)
                    decrement_row
                    w.tasks;
              outages = [];
              metrics = ms;
            },
          ))
    unfolding decrement_and_get_ready_tasks decrement_query actions
    query-eq = rw (doc.valid-dep event.ref_id plain) (_, refl)

    handle-eq :
        (ms : _) × (handle_task_completed ext event (record w { outages = [] })
          ≡ finish (unblocked ms))
    unfolding handle_task_completed
    handle-eq =
        let (m1, queried) = query-eq in
        let v = record w {
          tasks =
              update_where (depends_on ext event.execution_id event.ref_id) decrement_row w.tasks;
          outages = [];
          metrics = m1;
        } in
        let (m2, pushed) = push_ready-eq ext ready v in
        let (m3, counted) = for_each-eq coordinator_tasks_unblocked ready (unblocked m2) in
        (
          m3,
          bind-eq (decrement_and_get_ready_tasks ext event.execution_id event.ref_id) _
                (record w { outages = [] }) v ready queried
              ∙ bind-eq (push_ready ext ready) _ v (unblocked m2) tt pushed
              ∙ bind-eq (for_each ready (inc coordinator_tasks_unblocked)) _ (unblocked m2)
                  (unblocked m3) tt counted,
        )

pub coordinate_completed-eq :
    (ext : External) (doc : Documented ext) (event : TaskCompletedEvent)
    (later : List TaskCompletedEvent) (w : World)
    → IsPlain event.ref_id
    → (ms : _) × (coordinate_completed ext (record w { completed = event ∷ later; outages = [] })
        ≡ finish ext event
            (record w { completed = later })
            (unblocked ext event (record w { completed = later }) ms))
unfolding coordinate_completed receive_completed forward_completed actions
coordinate_completed-eq ext doc event later w plain =
    let v = record w {
      completed = later;
      metrics =
          coordinator_events_processed "completed"
          ∷ redis_messages_received "completed"
          ∷ w.metrics;
    } in
    handle-eq ext event v doc plain
