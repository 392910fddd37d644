-- ===== src/Service/Submission.antt =====
-- A submission with services that answer.
use go_tempo.Base.{
  ℕ, ◌+◌, ◌≡◌, refl, ap, sym, ◌∙◌, true, false, String, List, [], ◌∷◌, ◌++◌, map, arith, some,
  length, if◌then◌else◌, null, is_zero, pos, Bool-cases, inl, inr,
}
use mathlib.Core.List.{append-nil, append_assoc}
use go_tempo.Domain.{Task, WorkflowExecution, new_task, new_workflow}
use go_tempo.External.{External}
use go_tempo.World.{
  World, ok, actions, replies, calm-elim, service-calm, redis_error, redis_queue_push,
  db_transactions,
}
use go_tempo.Repository.Rows.{has_execution, fits, with_defaults}
use go_tempo.Repository.Tasks.{
  accepts_row, create_execution, transaction, insert_execution, insert_tasks, add_fitting,
}
use go_tempo.Redis.Queue.{main_queue, push}
use go_tempo.Mapper.{
  TaskDto, CreateWorkflowRequest, elements, to_task, to_tasks, to_workflow_execution,
}
use go_tempo.Service.{
  get_root_tasks, enqueue_root_tasks, submit_workflow, handle_submit, status_created,
}

-- The ids that the tasks with no dependencies get, if the first task gets number `next`.
abbrev pub root_ids : (new_id : ℕ → ℕ) (next : ℕ) → List TaskDto → List ℕ
root_ids new_id next [] = []
root_ids new_id next (dto ∷ dtos) =
    if null (elements dto.dependencies)
    then new_id next ∷ root_ids new_id (next + 1) dtos
    else root_ids new_id (next + 1) dtos

pub is_zero-length : (l : List String) → is_zero (pos (length l)) ≡ null l
is_zero-length [] = refl
is_zero-length (x ∷ l) = ground arith

root-ids :
    (new_id : ℕ → ℕ) (workflow_id next : ℕ) (dtos : List TaskDto)
    → map (λ t. t.id) (get_root_tasks (to_tasks new_id workflow_id next dtos))
      ≡ root_ids new_id next dtos
unfolding get_root_tasks to_tasks to_task new_task
root-ids new_id workflow_id next [] = refl
root-ids new_id workflow_id next (dto ∷ dtos) =
    let rest = root-ids new_id workflow_id (next + 1) dtos in
    elim (Bool-cases (null (elements dto.dependencies))) [
      | inl root ↦
          rw (is_zero-length (elements dto.dependencies), root) (ap (λ l. new_id next ∷ l) rest)
      | inr other ↦ rw (is_zero-length (elements dto.dependencies), other) rest
    ]

enqueued :
    (ext : External) (ts : List Task) (w : World)
    → w.outages ≡ []
    → ((enqueue_root_tasks ext main_queue ts w).0 ≡ ok tt)
      × ((enqueue_root_tasks ext main_queue ts w).1.tasks ≡ w.tasks)
      × ((enqueue_root_tasks ext main_queue ts w).1.executions ≡ w.executions)
      × ((enqueue_root_tasks ext main_queue ts w).1.pending
          ≡ w.pending ++ map ext.uuid_string (map (λ t. t.id) ts))
      × ((enqueue_root_tasks ext main_queue ts w).1.completed ≡ w.completed)
      × ((enqueue_root_tasks ext main_queue ts w).1.outages ≡ [])
      × ((enqueue_root_tasks ext main_queue ts w).1.retry ≡ w.retry)
      × ((enqueue_root_tasks ext main_queue ts w).1.terminated ≡ w.terminated)
unfolding enqueue_root_tasks push replies
enqueued ext [] w calm = (refl, refl, refl, sym (append-nil w.pending), refl, calm, refl, refl)
enqueued ext (t ∷ ts) w calm = rw (service-calm redis_error w calm) (
    let rest =
      enqueued ext ts
        (record w {
          pending = w.pending ++ ext.uuid_string t.id ∷ [];
          metrics = redis_queue_push "success" ∷ w.metrics;
        })
        calm in
    (
      rest.0,
      rest.1,
      rest.2,
      rest.3 ∙ append_assoc w.pending (ext.uuid_string t.id ∷ []) _,
      rest.4,
      rest.5,
      rest.6,
      rest.7,
    ))

-- The world after a transaction that commits.
abbrev with_workflow : WorkflowExecution → List Task → World → World
with_workflow e ts w = record w {
  executions = w.executions ++ e ∷ [];
  tasks = w.tasks ++ map with_defaults ts;
  metrics = db_transactions "success" ∷ w.metrics;
}

created :
    (ext : External) (e : WorkflowExecution) (ts : List Task) (w : World)
    → has_execution e.id w.executions ≡ false
    → ext.accepts_execution e ≡ true
    → fits (accepts_row ext) w.tasks ts ≡ true
    → create_execution ext e ts (record w { outages = [] })
      ≡ (ok tt, with_workflow e ts (record w { outages = [] }))
unfolding create_execution transaction insert_execution insert_tasks add_fitting actions
created ext e [] w new accepted fit = rw (new, accepted, append-nil w.tasks) refl
created ext e (t ∷ ts) w new accepted fit = rw (new, accepted, fit) refl

-- The workflow is committed, its first tasks are queued, and the client gets its id.
abbrev pub IsSubmitted :
    (ext : External) (new_id : ℕ → ℕ) (req : CreateWorkflowRequest) → World → Type 0
IsSubmitted ext new_id req w =
    ((handle_submit ext new_id (some req) w).0 ≡ ok (status_created (new_id 0)))
    × ((handle_submit ext new_id (some req) w).1.executions
        ≡ w.executions ++ (to_workflow_execution new_id req).0 ∷ [])
    × ((handle_submit ext new_id (some req) w).1.tasks
        ≡ w.tasks ++ map with_defaults (to_workflow_execution new_id req).1)
    × ((handle_submit ext new_id (some req) w).1.pending
        ≡ w.pending ++ map ext.uuid_string (root_ids new_id 1 req.tasks))

calm-IsSubmitted :
    (ext : External) (new_id : ℕ → ℕ) (req : CreateWorkflowRequest) (w : World)
    → has_execution (new_id 0) w.executions ≡ false
    → ext.accepts_execution (to_workflow_execution new_id req).0 ≡ true
    → fits (accepts_row ext) w.tasks (to_workflow_execution new_id req).1 ≡ true
    → IsSubmitted ext new_id req (record w { outages = [] })
unfolding handle_submit submit_workflow to_workflow_execution new_workflow replies
calm-IsSubmitted ext new_id req w new accepted fit =
    let e = (to_workflow_execution new_id req).0 in
    let ts = (to_workflow_execution new_id req).1 in
    let queued =
      enqueued ext (get_root_tasks ts) (with_workflow e ts (record w { outages = [] })) refl in
    rw (created ext e ts w new accepted fit, queued.0)
      (
        refl,
        queued.2,
        queued.1,
        queued.3
            ∙ ap (λ ids. w.pending ++ map ext.uuid_string ids)
                (root-ids new_id (new_id 0) 1 req.tasks),
      )

-- With services that answer, if the id of the execution is new and the rows fit the tables, a
-- submission is answered with the id, adds the execution and its tasks, with the defaults of their
-- columns, and queues exactly the tasks with no dependencies, in the order of the request.
pub handle_submit_lem :
    (ext : External) (new_id : ℕ → ℕ) (req : CreateWorkflowRequest) (w : World)
    → w.outages ≡ []
    → has_execution (new_id 0) w.executions ≡ false
    → ext.accepts_execution (to_workflow_execution new_id req).0 ≡ true
    → fits (accepts_row ext) w.tasks (to_workflow_execution new_id req).1 ≡ true
    → IsSubmitted ext new_id req w
handle_submit_lem ext new_id req =
    calm-elim
      (λ w.
        has_execution (new_id 0) w.executions ≡ false
        → ext.accepts_execution (to_workflow_execution new_id req).0 ≡ true
        → fits (accepts_row ext) w.tasks (to_workflow_execution new_id req).1 ≡ true
        → IsSubmitted ext new_id req w)
      (calm-IsSubmitted ext new_id req)

-- No event is published, no id is pushed for the retry worker, and no call fails.
abbrev IsSilent : (ext : External) (new_id : ℕ → ℕ) (req : CreateWorkflowRequest) → World → Type 0
IsSilent ext new_id req w =
    ((handle_submit ext new_id (some req) w).1.completed ≡ w.completed)
    × ((handle_submit ext new_id (some req) w).1.outages ≡ [])
    × ((handle_submit ext new_id (some req) w).1.retry ≡ w.retry)
    × ((handle_submit ext new_id (some req) w).1.terminated ≡ w.terminated)

calm-IsSilent :
    (ext : External) (new_id : ℕ → ℕ) (req : CreateWorkflowRequest) (w : World)
    → has_execution (new_id 0) w.executions ≡ false
    → ext.accepts_execution (to_workflow_execution new_id req).0 ≡ true
    → fits (accepts_row ext) w.tasks (to_workflow_execution new_id req).1 ≡ true
    → IsSilent ext new_id req (record w { outages = [] })
unfolding handle_submit submit_workflow to_workflow_execution new_workflow replies
calm-IsSilent ext new_id req w new accepted fit =
    let e = (to_workflow_execution new_id req).0 in
    let ts = (to_workflow_execution new_id req).1 in
    let queued =
      enqueued ext (get_root_tasks ts) (with_workflow e ts (record w { outages = [] })) refl in
    rw (created ext e ts w new accepted fit, queued.0) (queued.4, queued.5, queued.6, queued.7)

pub handle_submit-IsSilent :
    (ext : External) (new_id : ℕ → ℕ) (req : CreateWorkflowRequest) (w : World)
    → w.outages ≡ []
    → has_execution (new_id 0) w.executions ≡ false
    → ext.accepts_execution (to_workflow_execution new_id req).0 ≡ true
    → fits (accepts_row ext) w.tasks (to_workflow_execution new_id req).1 ≡ true
    → IsSilent ext new_id req w
handle_submit-IsSilent ext new_id req =
    calm-elim
      (λ w.
        has_execution (new_id 0) w.executions ≡ false
        → ext.accepts_execution (to_workflow_execution new_id req).0 ≡ true
        → fits (accepts_row ext) w.tasks (to_workflow_execution new_id req).1 ≡ true
        → IsSilent ext new_id req w)
      (calm-IsSilent ext new_id req)
