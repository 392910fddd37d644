-- ===== src/Completion/Start.antt =====
-- From the handler of POST /workflows to the end of the workflow.
use go_tempo.Base.{
  ℕ, ◌+◌, ◌≤◌, ◌<◌, ◌≡◌, ◌≢◌, refl, sym, ap, ◌∙◌, true, false, List, [], ◌∷◌, ◌++◌, map, null,
  String, some, arith, has, eq_iff, length, ◌==◌, All, All-append, All-implies, IsDistinct, any,
}
use go_tempo.Domain.{Task, WorkflowExecution, WorkflowStatus, is_completed, new_task, new_workflow}
use go_tempo.External.{External, Documented}
use go_tempo.World.{World}
use go_tempo.Mapper.{
  TaskDto, CreateWorkflowRequest, elements, to_task, to_tasks, to_workflow_execution,
}
use go_tempo.Repository.Rows.{with_defaults, has_execution, fits}
use go_tempo.Repository.Tasks.{accepts_row}
use go_tempo.Repository.Locks.{IsKeyed}
use go_tempo.Coordinator.Finish.{IsAllCompleted}
use go_tempo.Service.{handle_submit}
use go_tempo.Service.Submission.{root_ids, handle_submit_lem, handle_submit-IsSilent}
use go_tempo.Worker.Registry.{TaskRegistry}
use go_tempo.System.{here, next, beside, submit}
use go_tempo.System.Claims.{Reach-IsKeyed}
use go_tempo.Completion.Rows.{is_row}
use go_tempo.Completion.Track.{IsOpen, IsListed, OnTrack, has_name, work_left}
use go_tempo.Completion.Requests.{refs, plan_of, IsRunnable, rows_of, rows-has_name, rows-is_row}
use go_tempo.Completion.Submitted.{
  any-append, All-last, IsKeyed-last, fresh_status, tracked, fresh-left, other-left,
}
use go_tempo.Completion.Quiet.{IsOver}
use go_tempo.Completion.Schedule.{Activity, IsFair, run_blocks, blocks-IsOver}

-- Each element of a list is in it.
has-all : (rs : List String) → All (λ r. has r rs ≡ true) rs
has-all [] = tt
has-all (r ∷ rs) =
    (rw ((eq_iff r r).1 refl) refl, All-implies _ (λ x held. has-cons x r rs held) rs (has-all rs))
  where
    has-cons : (x r : String) (rs : List String) → has x rs ≡ true → has x (r ∷ rs) ≡ true
    has-cons x r rs held = ground (arith, held)

length-rows_of :
    (new_id : ℕ → ℕ) (execution_id first : ℕ) (ds : List TaskDto)
    → length (rows_of new_id execution_id first ds) ≡ length ds
unfolding to_tasks
length-rows_of new_id execution_id first [] = refl
length-rows_of new_id execution_id first (d ∷ ds) =
    omega (arith, length-rows_of new_id execution_id (first + 1) ds)

module _ (ext : External) (doc : Documented ext) (registry : TaskRegistry) (new_id : ℕ → ℕ)
    (rank : String → ℕ) (req : CreateWorkflowRequest) where
  open_rows :
      (first : ℕ) (ds : List TaskDto)
      → null ds ≡ false
      → IsAllCompleted (new_id 0) (rows_of new_id (new_id 0) first ds)
      → ⊥
  unfolding to_tasks to_task with_defaults new_task is_completed
  open_rows first [] some_task all = cc
  open_rows first (d ∷ ds) some_task all =
      let no : true ≡ false =
        sym (ap is_completed (all.0 refl))
        ∙ fresh_status ext doc registry new_id rank req (length (elements d.dependencies) == 0) in
      cc

  unfailed_executions :
      (es : List WorkflowExecution)
      → has_execution (new_id 0) es ≡ false
      → All
          (λ x. x.id ≡ new_id 0 → x.status ≢ WorkflowStatus.failed)
          (es ++ (to_workflow_execution new_id req).0 ∷ [])
  unfolding has_execution to_workflow_execution new_workflow
  unfailed_executions [] new =
      ((λ mine same. let no : WorkflowStatus.running ≡ WorkflowStatus.failed = same in cc), tt)
  unfailed_executions (x ∷ es) new =
      ((λ mine. absurd (ground (arith, mine, new))), unfailed_executions es (ground (arith, new)))

  there_execution :
      (es : List WorkflowExecution)
      → has_execution (new_id 0) (es ++ (to_workflow_execution new_id req).0 ∷ []) ≡ true
  unfolding has_execution to_workflow_execution new_workflow
  there_execution [] = ground arith
  there_execution (x ∷ es) = ground (arith, there_execution es)

  roots-IsListed :
      (ts : List Task) (ids : List ℕ)
      → All (λ id. any (is_row (new_id 0) id) ts ≡ true) ids
      → All (IsListed ext registry (plan_of new_id rank req.tasks) ts) (map ext.uuid_string ids)
  roots-IsListed ts [] h = tt
  roots-IsListed ts (id ∷ ids) h = ((id, doc.parse-string id, h.0), roots-IsListed ts ids h.1)

  module _ (distinct : IsDistinct (refs req.tasks))
      (tasks : All (IsRunnable ext registry rank (refs req.tasks)) req.tasks)
      (some_task : null req.tasks ≡ false) (w : World)
      (others : All (λ t. t.execution_id ≢ new_id 0) w.tasks) where
    abbrev new_rows : List Task
    new_rows = rows_of new_id (new_id 0) 1 req.tasks

    started-OnTrack :
        (v : World)
        → v.outages ≡ []
        → v.retry ≡ []
        → v.terminated ≡ []
        → v.tasks ≡ w.tasks ++ new_rows
        → v.pending ≡ map ext.uuid_string (root_ids new_id 1 req.tasks)
        → v.completed ≡ []
        → IsKeyed v.tasks
        → IsOpen (new_id 0) v.executions
        → OnTrack ext registry (plan_of new_id rank req.tasks) [] v
    started-OnTrack v calm no_retries no_terminations table list no_events keyed sound =
        let keyed_rows = IsKeyed-last w.tasks new_rows (rw table at keyed) in
        record {
          calm = calm;
          no_retries = no_retries;
          no_terminations = no_terminations;
          keyed = keyed;
          rows =
              rw (table, list, no_events)
                (All-append _ w.tasks new_rows
                  (All-implies _ (λ t other mine. absurd (other mine)) w.tasks others)
                  (tracked ext doc registry new_id rank req distinct tasks keyed_rows));
          names = λ r known. rw table (
              any-append (has_name (new_id 0) r) w.tasks new_rows
                (rows-has_name new_id (new_id 0) r 1 req.tasks known));
          good = tt;
          once = tt;
          listed =
              rw (table, list)
                (roots-IsListed (w.tasks ++ new_rows) (root_ids new_id 1 req.tasks) (
                  All-implies _
                    (λ id there. any-append (is_row (new_id 0) id) w.tasks new_rows there)
                    (root_ids new_id 1 req.tasks) (rows-is_row new_id (new_id 0) 1 req.tasks)));
          expected = rw no_events tt;
          open_status = sound;
          closing = λ quiet all.
              absurd
                (open_rows 1 req.tasks some_task (All-last _ w.tasks new_rows (rw table at all)));
        }

    started-left :
        (v : World)
        → v.tasks ≡ w.tasks ++ new_rows
        → work_left ext registry (plan_of new_id rank req.tasks) [] v
          ≤ length req.tasks + length req.tasks
    started-left v table =
        let all = other-left ext doc registry new_id rank req distinct tasks w others in
        let most = fresh-left ext doc registry new_id rank req distinct tasks new_rows in
        let counted = length-rows_of new_id (new_id 0) 1 req.tasks in
        rw table (omega (arith, all, most, counted))

    submitted-OnTrack :
        IsKeyed w.tasks
        → w.outages ≡ []
        → w.pending ≡ []
        → w.retry ≡ []
        → w.completed ≡ []
        → w.terminated ≡ []
        → has_execution (new_id 0) w.executions ≡ false
        → ext.accepts_execution (to_workflow_execution new_id req).0 ≡ true
        → fits (accepts_row ext) w.tasks (to_workflow_execution new_id req).1 ≡ true
        → OnTrack ext registry
            (plan_of new_id rank req.tasks)
            []
            (handle_submit ext new_id (some req) w).1
          × (work_left ext registry
                (plan_of new_id rank req.tasks)
                []
                (handle_submit ext new_id (some req) w).1
              ≤ length req.tasks + length req.tasks)
    unfolding to_workflow_execution new_workflow
    submitted-OnTrack keyed calm no_ids no_retries no_events no_terminations new accepted fit =
        let v = (handle_submit ext new_id (some req) w).1 in
        let (answered, executions, table, list) =
          handle_submit_lem ext new_id req w calm new accepted fit in
        let (events, quiet, retries, terminations) =
          handle_submit-IsSilent ext new_id req w calm new accepted fit in
        let now_keyed =
          Reach-IsKeyed ext registry "" "" (next here (beside (submit new_id (some req) w)))
            keyed in
        (
          started-OnTrack v quiet (retries ∙ no_retries) (terminations ∙ no_terminations) table
              (list ∙ ap (λ l. l ++ map ext.uuid_string (root_ids new_id 1 req.tasks)) no_ids)
              (events ∙ no_events) now_keyed
              (rw executions (there_execution w.executions, unfailed_executions w.executions new)),
          started-left v table,
        )

    -- A workflow that is submitted to a program at rest runs to its end, with services that
    -- answer: after more than twice as many blocks of turns as it has tasks, each with a turn
    -- of a main worker and one of the coordinator at the completed tasks, among any others and
    -- in any order, its execution is there with a task of each name of the request, and it and
    -- all of its tasks are COMPLETED; if it has a task, no two have the same name, each lists a
    -- dependency once, and only tasks of the request, which come before it in some order of the
    -- names, the names need no escape in JSON, each action is in the registry and succeeds with
    -- valid JSON, whatever it sees of its context, the id of the execution is new, no row of
    -- tasks is of it, the ids of the rows are distinct, and the new rows fit the tables.
    pub submitted-completes :
        (blocks : List (List Activity))
        → IsKeyed w.tasks
        → w.outages ≡ []
        → w.pending ≡ []
        → w.retry ≡ []
        → w.completed ≡ []
        → w.terminated ≡ []
        → has_execution (new_id 0) w.executions ≡ false
        → ext.accepts_execution (to_workflow_execution new_id req).0 ≡ true
        → fits (accepts_row ext) w.tasks (to_workflow_execution new_id req).1 ≡ true
        → All IsFair blocks
        → length req.tasks + length req.tasks < length blocks
        → IsOver
            (new_id 0)
            (refs req.tasks)
            (run_blocks ext registry blocks (handle_submit ext new_id (some req) w).1)
    submitted-completes blocks keyed calm no_ids no_retries no_events no_terminations new accepted
          fit fair long =
        let (track, most) =
          submitted-OnTrack keyed calm no_ids no_retries no_events no_terminations new accepted
            fit in
        blocks-IsOver ext doc registry (plan_of new_id rank req.tasks) (refs req.tasks)
          (has-all (refs req.tasks)) blocks [] (handle_submit ext new_id (some req) w).1 track fair
          (omega (arith, most, long))
