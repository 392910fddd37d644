-- ===== src/Kahn/Replay.antt =====
-- A workflow from its submission on, through the ends of its tasks.
use go_tempo.Base.{
  ℕ, ◌+◌, ◌≡◌, refl, ap, ◌∙◌, Bool, true, List, [], ◌∷◌, map, String, Option, none, some, All,
  All-append, All-implies, IsDistinct, ◌≢◌, ◌++◌, false, ◌==◌, length, is_zero, is_zero-sub_ℕ,
  arith,
}
use go_tempo.Domain.{Task, Json}
use go_tempo.External.{External, Documented, IsPlain}
use go_tempo.World.{World, database_error, replies, service-calm}
use go_tempo.Repository.Rows.{with_defaults, update_where}
use go_tempo.Repository.Dag.{
  depends_on, decrement_query, decrement_and_get_ready_tasks, decrement_and_set_skip_hint,
}
use go_tempo.Mapper.{TaskDto, elements, to_task, to_tasks}
use go_tempo.Kahn.Ends.{Ledger, all_ended, tainted, hits, IsOnce}
use go_tempo.Kahn.Counting.{hits-all_ended}
use go_tempo.Kahn.Refinement.{IsCounted, Counted, deps_of, end_query, end_row, end_query-refines}

module _ (new_id : ℕ → ℕ) (workflow_id : ℕ) where
  to_task-IsCounted :
      (next : ℕ) (ref_id action : String) (dependencies : Option (List String)) (input : Json)
      → IsDistinct (elements dependencies)
      → IsCounted [] (
          with_defaults (
            to_task (new_id next) workflow_id (record {
              ref_id = ref_id;
              action = action;
              dependencies = dependencies;
              input = input;
            })))
  unfolding to_task with_defaults
  to_task-IsCounted next ref_id action none input d = record {
    array = tt;
    distinct = tt;
    degree = refl;
    hint = refl;
  }
  to_task-IsCounted next ref_id action (some ds) input d = record {
    array = tt;
    distinct = d;
    degree = ground arith;
    hint = refl;
  }

  -- The rows of a request whose tasks name no dependency twice agree with the empty ledger.
  pub to_tasks-Counted :
      (next : ℕ) (dtos : List TaskDto)
      → All (λ dto. IsDistinct (elements dto.dependencies)) dtos
      → Counted workflow_id [] (map with_defaults (to_tasks new_id workflow_id next dtos))
  unfolding to_tasks
  to_tasks-Counted next [] d = tt
  to_tasks-Counted next (dto ∷ dtos) d = (
    λ e. to_task-IsCounted next dto.ref_id dto.action dto.dependencies dto.input d.0,
    to_tasks-Counted (next + 1) dtos d.1,
  )

-- The world after the tasks of the ledger ended, one after the other.
abbrev pub replay : External → (execution_id : ℕ) → Ledger → World → World
replay ext execution_id [] w = w
replay ext execution_id ((r, bad) ∷ es) w =
    (end_query ext bad execution_id r (replay ext execution_id es w)).1

-- No name in the ledger needs an escape.
abbrev pub IsPlainLedger : Ledger → Type 0
IsPlainLedger = All (λ entry. IsPlain entry.0)

module _ (ext : External) (doc : Documented ext) (execution_id : ℕ) where
  end_query-outages :
      (bad : Bool) (r : String) (w : World)
      → IsPlain r
      → w.outages ≡ []
      → (end_query ext bad execution_id r w).1.outages ≡ []
  unfolding decrement_and_get_ready_tasks decrement_and_set_skip_hint decrement_query replies
  end_query-outages true r w plain calm =
      rw (service-calm database_error w calm, doc.valid-dep r plain) calm
  end_query-outages false r w plain calm =
      rw (service-calm database_error w calm, doc.valid-dep r plain) calm

  replay-Counted :
      (ledger : Ledger) (w : World)
      → IsPlainLedger ledger
      → IsOnce ledger
      → Counted execution_id [] w.tasks
      → w.outages ≡ []
      → Counted execution_id ledger (replay ext execution_id ledger w).tasks
        × ((replay ext execution_id ledger w).outages ≡ [])
  replay-Counted [] w plain once c calm = (c, calm)
  replay-Counted ((r, bad) ∷ es) w plain once c calm =
      let (counted, quiet) = replay-Counted es w plain.1 once.1 c calm in
      (
        (end_query-refines ext doc execution_id r es plain.0 (replay ext execution_id es w) counted
            quiet bad once).1,
        end_query-outages bad r (replay ext execution_id es w) plain.0 quiet,
      )

-- Every row of the execution is at 0 if and only if all of its dependencies ended, and has its skip
-- hint if and only if one of them failed or was skipped.
abbrev pub Agrees : (execution_id : ℕ) → Ledger → List Task → Type 0
Agrees execution_id ledger = All (λ t.
    t.execution_id ≡ execution_id
    → (is_zero t.in_degree ≡ all_ended (deps_of t.dependencies) ledger)
      × (t.skip_hint ≡ tainted (deps_of t.dependencies) ledger))

Counted-Agrees :
    (execution_id : ℕ) (ledger : Ledger)
    → IsOnce ledger
    → (ts : List Task) → Counted execution_id ledger ts
    → Agrees execution_id ledger ts
Counted-Agrees execution_id ledger once [] c = tt
Counted-Agrees execution_id ledger once (t ∷ ts) c = (
  λ e.
      let row = c.0 e in
      let ds = deps_of t.dependencies in
      (
        ap is_zero row.degree
            ∙ is_zero-sub_ℕ (length ds) (hits ds ledger)
            ∙ hits-all_ended ds ledger row.distinct once,
        row.hint,
      ),
  Counted-Agrees execution_id ledger once ts c.1,
)

module _ (ext : External) (doc : Documented ext) (execution_id : ℕ) (others : List Task)
    (foreign : All (λ t. t.execution_id ≢ execution_id) others) where
  -- Rows of other executions in front are passed by.
  update_where-foreign :
      (r : String) (f : Task → Task) (os ts : List Task)
      → All (λ t. t.execution_id ≢ execution_id) os
      → update_where (depends_on ext execution_id r) f (os ++ ts)
        ≡ os ++ update_where (depends_on ext execution_id r) f ts
  unfolding update_where depends_on
  update_where-foreign r f [] ts apart = refl
  update_where-foreign r f (o ∷ os) ts apart =
      let away : (o.execution_id == execution_id) ≡ false = ground (arith, apart.0) in
      rw (away, update_where-foreign r f os ts apart.1) refl

  end_query-foreign :
      (bad : Bool) (r : String) (w : World) (ts : List Task)
      → IsPlain r
      → w.outages ≡ []
      → w.tasks ≡ others ++ ts
      → (end_query ext bad execution_id r w).1.tasks
        ≡ others ++ update_where (depends_on ext execution_id r) (end_row bad) ts
  unfolding decrement_and_get_ready_tasks decrement_and_set_skip_hint decrement_query replies
  end_query-foreign true r w ts plain calm table =
      rw (service-calm database_error w calm, doc.valid-dep r plain, table)
        (update_where-foreign r (end_row true) others ts foreign)
  end_query-foreign false r w ts plain calm table =
      rw (service-calm database_error w calm, doc.valid-dep r plain, table)
        (update_where-foreign r (end_row false) others ts foreign)

  replay-foreign :
      (ledger : Ledger) (w : World) (ts : List Task)
      → IsPlainLedger ledger
      → w.outages ≡ []
      → w.tasks ≡ others ++ ts
      → (later : List Task) × ((replay ext execution_id ledger w).tasks ≡ others ++ later)
        × ((replay ext execution_id ledger w).outages ≡ [])
  replay-foreign [] w ts plain calm table = (ts, table, calm)
  replay-foreign ((r, bad) ∷ es) w ts plain calm table =
      let (later, rows, quiet) = replay-foreign es w ts plain.1 calm table in
      (
        update_where (depends_on ext execution_id r) (end_row bad) later,
        end_query-foreign bad r (replay ext execution_id es w) later plain.0 quiet rows,
        end_query-outages ext doc execution_id bad r (replay ext execution_id es w) plain.0 quiet,
      )

-- In a submitted workflow whose tasks name no dependency twice, among any rows of other executions,
-- after any of its tasks have ended, in any order, each once, a task's in-degree is 0 exactly if all
-- of its dependencies have ended, and its skip hint is set exactly if one of them failed or was
-- skipped, and the rows of the other executions are as they were; if the names need no escape in
-- JSON, and the database answers.
pub replay_lem :
    (ext : External) (doc : Documented ext) (new_id : ℕ → ℕ) (workflow_id next : ℕ)
    (dtos : List TaskDto) (ledger : Ledger) (others : List Task) (w : World)
    → All (λ dto. IsDistinct (elements dto.dependencies)) dtos
    → IsPlainLedger ledger
    → IsOnce ledger
    → All (λ t. t.execution_id ≢ workflow_id) others
    → w.tasks ≡ others ++ map with_defaults (to_tasks new_id workflow_id next dtos)
    → w.outages ≡ []
    → Agrees workflow_id ledger (replay ext workflow_id ledger w).tasks
      × ((later : List Task) × ((replay ext workflow_id ledger w).tasks ≡ others ++ later))
replay_lem ext doc new_id workflow_id next dtos ledger others w distinct plain once foreign rows
      calm =
    let new_rows = map with_defaults (to_tasks new_id workflow_id next dtos) in
    let counted : Counted workflow_id [] (others ++ new_rows) =
      All-append _ others new_rows
        (All-implies _ (λ t apart mine. absurd (apart mine)) others foreign)
        (to_tasks-Counted new_id workflow_id next dtos distinct) in
    let (later, split, quiet) =
      replay-foreign ext doc workflow_id others foreign ledger w new_rows plain calm rows in
    (
      Counted-Agrees workflow_id ledger once (replay ext workflow_id ledger w).tasks
          (replay-Counted ext doc workflow_id ledger w plain once (rw rows counted) calm).0,
      (later, split),
    )
