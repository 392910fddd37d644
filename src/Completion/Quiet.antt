-- ===== src/Completion/Quiet.antt =====
-- A workflow that is on its way, with no id in the list and no event in the channel.
use go_tempo.Base.{
  ℕ, zero, suc, ◌≤◌, ◌<◌, ◌≡◌, ◌≢◌, refl, ap, subst, ◌∙◌, true, ◌||◌, List, [], ◌∷◌, String, arith,
  eq_iff, All, All-implies, All-zip, any,
}
use go_tempo.Domain.{Task, WorkflowExecution, WorkflowStatus, is_finished, same_status}
use go_tempo.External.{External}
use go_tempo.World.{World}
use go_tempo.Kahn.{Ledger, ended, all_ended, IsOnce}
use go_tempo.Kahn.Refinement.{deps_of}
use go_tempo.Coordinator.Finish.{IsAllCompleted, is_completed-eq}
use go_tempo.Repository.Rows.{has_execution}
use go_tempo.Worker.Registry.{TaskRegistry}
use go_tempo.System.Tokens.{one_if}
use go_tempo.Completion.Counts.{one_if-one}
use go_tempo.Completion.Rows.{any-All}
use go_tempo.Completion.Track.{Plan, IsTracked, AreTracked, OnTrack, has_name}
use go_tempo.Completion.Ended.{counted-is_zero}

-- Every task of the execution is COMPLETED, and so is the execution.
abbrev pub IsCompleted : (execution_id : ℕ) → World → Type 0
IsCompleted execution_id w =
    IsAllCompleted execution_id w.tasks
    × All (λ e. e.id ≡ execution_id → e.status ≡ WorkflowStatus.completed) w.executions

-- That is so, and the execution is there, with a task of each of the names.
abbrev pub IsOver : (execution_id : ℕ) (refs : List String) → World → Type 0
IsOver execution_id refs w =
    IsCompleted execution_id w
    × (has_execution execution_id w.executions ≡ true)
    × All (λ r. any (has_name execution_id r) w.tasks ≡ true) refs

all_ended-All :
    (ledger : Ledger) (ds : List String)
    → All (λ d. ended d ledger ≡ true) ds
    → all_ended ds ledger ≡ true
all_ended-All ledger [] h = refl
all_ended-All ledger (d ∷ ds) h = rw (h.0, all_ended-All ledger ds h.1)

finished_status :
    (s : WorkflowStatus)
    → (same_status s WorkflowStatus.completed || same_status s WorkflowStatus.failed) ≡ true
    → s ≢ WorkflowStatus.failed
    → s ≡ WorkflowStatus.completed
finished_status WorkflowStatus.completed over sound = refl
finished_status WorkflowStatus.failed over sound = absurd (sound refl)
finished_status WorkflowStatus.paused over sound = absurd cc
finished_status WorkflowStatus.running over sound = absurd cc

not_failed :
    (e : WorkflowExecution)
    → is_finished e ≡ true
    → e.status ≢ WorkflowStatus.failed
    → e.status ≡ WorkflowStatus.completed
unfolding is_finished
not_failed e over sound = finished_status e.status over sound

module _ (ext : External) (registry : TaskRegistry) (plan : Plan) (ledger : Ledger)
    (once : IsOnce ledger) (ts : List Task) (rows : AreTracked ext registry plan ledger [] [] ts)
    (names : (r : String)
      → plan.known r ≡ true
      → any (has_name plan.execution_id r) ts ≡ true) where
  -- The tasks before the bound have ended.
  abbrev IsEndedBelow : ℕ → Type 0
  IsEndedBelow bound =
      All
        (λ t.
          t.execution_id ≡ plan.execution_id
          → plan.rank t.ref_id < bound
          → ended t.ref_id ledger ≡ true)
        ts

  -- A task ends after those it depends on: nothing of it is on its way.
  row-ended :
      (bound : ℕ) (t : Task)
      → IsEndedBelow bound
      → IsTracked ext registry plan ledger [] [] t
      → plan.rank t.ref_id ≤ bound
      → ended t.ref_id ledger ≡ true
  row-ended bound t below row le =
      let ends =
        All-implies _
          (λ d dep.
            let (u, called, held) =
              any-All (has_name plan.execution_id d) ts (names d dep.1) below in
            let ours : u.execution_id ≡ plan.execution_id = ground (arith, called) in
            let same : u.ref_id ≡ d = (eq_iff u.ref_id d).0 (ground (arith, called)) in
            let earlier : plan.rank u.ref_id < bound = rw same (omega (arith, dep.0, le)) in
            subst (λ r. ended r ledger ≡ true) same (held ours earlier))
          (deps_of t.dependencies) row.planned.deps in
      let free =
        counted-is_zero ledger t once row.counted
        ∙ all_ended-All ledger (deps_of t.dependencies) ends in
      let total = row.once in one_if-one _ (omega (arith, total, ap one_if free))

  ended_below : (bound : ℕ) → IsEndedBelow bound
  ended_below zero = All-implies _ (λ t row e less. absurd (omega (arith, less))) ts rows
  ended_below (suc bound) =
      All-implies _
        (λ t row e less. row-ended bound t (ended_below bound) (row e) (omega (arith, less))) ts
        rows

  all_completed : IsAllCompleted plan.execution_id ts
  all_completed =
      All-implies _
        (λ t row e.
          let over =
            row-ended (plan.rank t.ref_id) t (ended_below (plan.rank t.ref_id)) (row e)
              (omega arith) in
          let reports = IsTracked.done (row e) in
          is_completed-eq t.status (one_if-one _ (omega (arith, reports, ap one_if over))))
        ts rows

quiet-IsCompleted :
    (ext : External) (registry : TaskRegistry) (plan : Plan) (ledger : Ledger) (w : World)
    → OnTrack ext registry plan ledger w
    → w.pending ≡ []
    → w.completed ≡ []
    → IsCompleted plan.execution_id w
quiet-IsCompleted ext registry plan ledger w track none_listed none_reported =
    let rows = rw (none_listed, none_reported) at track.rows in
    let all = all_completed ext registry plan ledger track.once w.tasks rows track.names in
    (
      all,
      All-zip _ (λ e sound over mine. not_failed e (over mine) (sound mine)) w.executions
          track.open_status.1 (track.closing none_reported all),
    )

-- The workflow is over.
pub quiet-IsOver :
    (ext : External) (registry : TaskRegistry) (plan : Plan) (refs : List String)
    (known : All (λ r. plan.known r ≡ true) refs) (ledger : Ledger) (w : World)
    → OnTrack ext registry plan ledger w
    → w.pending ≡ []
    → w.completed ≡ []
    → IsOver plan.execution_id refs w
quiet-IsOver ext registry plan refs known ledger w track none_listed none_reported = (
  quiet-IsCompleted ext registry plan ledger w track none_listed none_reported,
  track.open_status.0,
  All-implies _ (λ r is. track.names r is) refs known,
)
