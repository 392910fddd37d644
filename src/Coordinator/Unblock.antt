-- ===== src/Coordinator/Unblock.antt =====
-- handleTaskCompleted and handleTaskTerminated of internal/coordinator/coordinator.go: what they queue.
use go_tempo.Base.{
  ℕ, ◌≡◌, refl, sym, ap, ◌∙◌, Bool, true, false, String, List, [], ◌∷◌, ◌++◌, map, Bool-cases, inl,
  inr, if◌then◌else◌, null, ◌==◌,
}
use mathlib.Core.List.{append-nil, append_assoc}
use go_tempo.Domain.{TaskCompletedEvent, TaskTerminatedEvent, TaskTerminationType}
use go_tempo.External.{External, Documented, IsPlain}
use go_tempo.World.{
  World, Metric, ok, inc, pure, database_error, redis_error, replies, actions, service-calm,
  calm-elim, bind-ok, redis_queue_push, ◌>>◌, coordinator_tasks_unblocked,
  coordinator_skip_propagations,
}
use go_tempo.Repository.Rows.{count_where}
use go_tempo.Repository.Dag.{
  decrement_and_get_ready_tasks, decrement_and_set_skip_hint, decrement_query,
  are_all_tasks_completed, is_unfinished,
}
use go_tempo.Repository.Workflows.{update_status}
use go_tempo.Redis.Queue.{push}
use go_tempo.Kahn.{IsOnce}
use go_tempo.Kahn.Refinement.{Counted, end_query, end_query-refines, now_ready}
use go_tempo.Coordinator.{
  for_each, push_ready, check_if_workflow_finished, handle_task_completed, handle_task_terminated,
  count_failed,
}

-- The list of the main workers got `more` behind what was in it, and no outage lies ahead.
abbrev Queues : (more : List String) → World → World → Type 0
Queues more v w = (w.pending ≡ v.pending ++ more) × (w.outages ≡ [])

push_ready-Queues :
    (ext : External) (ids : List ℕ) (w : World)
    → w.outages ≡ []
    → ((push_ready ext ids w).0 ≡ ok tt)
      × Queues (map ext.uuid_string ids) w (push_ready ext ids w).1
unfolding push_ready push replies
push_ready-Queues ext [] w calm = (refl, (sym (append-nil w.pending), calm))
push_ready-Queues ext (id ∷ ids) w calm = rw (service-calm redis_error w calm) (
    let (done, (more, quiet)) =
      push_ready-Queues ext ids
        (record w {
          pending = w.pending ++ ext.uuid_string id ∷ [];
          metrics = redis_queue_push "success" ∷ w.metrics;
        })
        calm in
    (done, (more ∙ append_assoc w.pending (ext.uuid_string id ∷ []) _, quiet)))

-- A loop that only counts.
for_each-counts :
    (m : Metric) (ids : List ℕ) (w : World)
    → ((for_each ids (inc m) w).0 ≡ ok tt)
      × ((for_each ids (inc m) w).1.pending ≡ w.pending)
      × ((for_each ids (inc m) w).1.outages ≡ w.outages)
unfolding for_each replies
for_each-counts m [] w = (refl, refl, refl)
for_each-counts m (id ∷ ids) w = for_each-counts m ids (record w { metrics = m ∷ w.metrics })

for_each-counts_both :
    (m n : Metric) (ids : List ℕ) (w : World)
    → ((for_each ids (inc m >> inc n) w).0 ≡ ok tt)
      × ((for_each ids (inc m >> inc n) w).1.pending ≡ w.pending)
      × ((for_each ids (inc m >> inc n) w).1.outages ≡ w.outages)
unfolding for_each replies
for_each-counts_both m n [] w = (refl, refl, refl)
for_each-counts_both m n (id ∷ ids) w =
    for_each-counts_both m n ids (record w { metrics = n ∷ m ∷ w.metrics })

check-pending :
    (id : ℕ) (w : World)
    → (check_if_workflow_finished id (record w { outages = [] })).1.pending ≡ w.pending
unfolding check_if_workflow_finished are_all_tasks_completed update_status actions
check-pending id w = elim (Bool-cases (count_where (is_unfinished id) w.tasks == 0)) [
  | inl done ↦ rw done refl
  | inr left ↦ rw left refl
]

check-pending_calm :
    (id : ℕ) (w : World) → w.outages ≡ [] → (check_if_workflow_finished id w).1.pending ≡ w.pending
check-pending_calm id =
    calm-elim (λ w. (check_if_workflow_finished id w).1.pending ≡ w.pending) (check-pending id)

-- The query itself queues nothing.
end_query-Queues :
    (ext : External) (doc : Documented ext) (bad : Bool) (id : ℕ) (r : String) (w : World)
    → IsPlain r
    → w.outages ≡ []
    → ((end_query ext bad id r w).1.pending ≡ w.pending)
      × ((end_query ext bad id r w).1.outages ≡ [])
unfolding decrement_and_get_ready_tasks decrement_and_set_skip_hint decrement_query replies
end_query-Queues ext doc true id r w plain calm =
    rw (service-calm database_error w calm, doc.valid-dep r plain) (refl, calm)
end_query-Queues ext doc false id r w plain calm =
    rw (service-calm database_error w calm, doc.valid-dep r plain) (refl, calm)

finished-pending :
    (b : Bool) (id : ℕ) (u : World)
    → u.outages ≡ []
    → ((if b then check_if_workflow_finished id else pure tt) u).1.pending ≡ u.pending
unfolding pure
finished-pending true id u calm = check-pending_calm id u calm
finished-pending false id u calm = refl

count_failed-pending :
    (ext : External) (type : TaskTerminationType) (u : World)
    → (count_failed ext type u).1.pending ≡ u.pending
unfolding replies
count_failed-pending ext TaskTerminationType.failed u = refl
count_failed-pending ext TaskTerminationType.skipped u = refl

module _ (ext : External) (doc : Documented ext) (ledger : List (String × Bool)) (w : World)
    (calm : w.outages ≡ []) where
  -- With services that answer, the coordinator queues for a completed task exactly the tasks whose
  -- last dependency it was, behind what is in the queue: if the counters and skip hints of its
  -- execution agree with the ledger of the tasks that ended before, it is not among those, and its
  -- name needs no escape in JSON.
  pub handle_task_completed_lem :
      (event : TaskCompletedEvent)
      → IsPlain event.ref_id
      → Counted event.execution_id ledger w.tasks
      → IsOnce ((event.ref_id, false) ∷ ledger)
      → (handle_task_completed ext event w).1.pending
        ≡ w.pending
          ++ map ext.uuid_string
              (now_ready event.execution_id event.ref_id ((event.ref_id, false) ∷ ledger) w.tasks)
  unfolding handle_task_completed
  handle_task_completed_lem event plain counted once =
      let ids =
        now_ready event.execution_id event.ref_id ((event.ref_id, false) ∷ ledger) w.tasks in
      let query = end_query ext false event.execution_id event.ref_id in
      let (same, quiet) =
        end_query-Queues ext doc false event.execution_id event.ref_id w plain calm in
      let refined =
        end_query-refines ext doc event.execution_id event.ref_id ledger plain w counted calm false
          once in
      let (done, (more, silent)) = push_ready-Queues ext ids (query w).1 quiet in
      let v = (push_ready ext ids (query w).1).1 in
      let (counts, kept, still) = for_each-counts coordinator_tasks_unblocked ids v in
      ap (λ p. p.1.pending) (bind-ok query _ w ids refined.0)
      ∙ ap (λ p. p.1.pending) (bind-ok (push_ready ext ids) _ (query w).1 tt done)
      ∙ ap (λ p. p.1.pending)
          (bind-ok (for_each ids (inc coordinator_tasks_unblocked)) _ v tt counts)
      ∙ finished-pending (null ids) event.execution_id
          (for_each ids (inc coordinator_tasks_unblocked) v).1 (still ∙ silent)
      ∙ kept
      ∙ more
      ∙ ap (λ l. l ++ map ext.uuid_string ids) same

  -- With services that answer, the coordinator queues for a failed or skipped task exactly the tasks
  -- whose last dependency it was, behind what is in the queue: if the counters and skip hints of its
  -- execution agree with the ledger of the tasks that ended before, it is not among those, and its
  -- name needs no escape in JSON.
  pub handle_task_terminated_lem :
      (event : TaskTerminatedEvent)
      → IsPlain event.ref_id
      → Counted event.execution_id ledger w.tasks
      → IsOnce ((event.ref_id, true) ∷ ledger)
      → (handle_task_terminated ext event w).1.pending
        ≡ w.pending
          ++ map ext.uuid_string
              (now_ready event.execution_id event.ref_id ((event.ref_id, true) ∷ ledger) w.tasks)
  unfolding handle_task_terminated
  handle_task_terminated_lem event plain counted once =
      let ids = now_ready event.execution_id event.ref_id ((event.ref_id, true) ∷ ledger) w.tasks in
      let query = end_query ext true event.execution_id event.ref_id in
      let (same, quiet) =
        end_query-Queues ext doc true event.execution_id event.ref_id w plain calm in
      let refined =
        end_query-refines ext doc event.execution_id event.ref_id ledger plain w counted calm true
          once in
      let (done, (more, silent)) = push_ready-Queues ext ids (query w).1 quiet in
      let v = (push_ready ext ids (query w).1).1 in
      let body = inc coordinator_skip_propagations >> inc coordinator_tasks_unblocked in
      let (counts, kept, still) =
        for_each-counts_both coordinator_skip_propagations coordinator_tasks_unblocked ids v in
      ap (λ p. p.1.pending) (bind-ok query _ w ids refined.0)
      ∙ ap (λ p. p.1.pending) (bind-ok (push_ready ext ids) _ (query w).1 tt done)
      ∙ ap (λ p. p.1.pending) (bind-ok (for_each ids body) _ v tt counts)
      ∙ count_failed-pending ext event.type (for_each ids body v).1
      ∙ kept
      ∙ more
      ∙ ap (λ l. l ++ map ext.uuid_string ids) same
