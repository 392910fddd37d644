-- ===== src/Completion/Track.antt =====
-- What holds of the tables, the list and the channel while a workflow is on its way.
use go_tempo.Base.{
  ℕ, ◌+◌, ◌<◌, ◌≡◌, ◌≢◌, Bool, true, ◌&&◌, not, List, [], String, str_eq, some, is_zero, All, any,
  ◌==◌, if◌then◌else◌,
}
use go_tempo.Domain.{
  Json, Task, TaskCompletedEvent, WorkflowExecution, WorkflowStatus, is_completed,
}
use go_tempo.External.{External, IsPlain}
use go_tempo.World.{World, ok}
use go_tempo.Kahn.{Ledger, ended, IsOnce}
use go_tempo.Kahn.Refinement.{IsCounted, deps_of}
use go_tempo.Repository.Rows.{has_execution}
use go_tempo.Repository.Locks.{IsKeyed}
use go_tempo.Coordinator.Finish.{IsAllCompleted, IsAllFinished}
use go_tempo.Worker.Registry.{Context, TaskHandler, TaskRegistry, lookup}
use go_tempo.System.Tokens.{one_if, listed}
use go_tempo.Completion.Counts.{reported, IsGood}
use go_tempo.Completion.Rows.{is_row, sum}

-- The workflow as it was submitted: its tasks by id and by name, and an order of the names in which
-- each task stands behind those it depends on.
pub record Plan : Type 0 where
  pub execution_id : ℕ
  pub number : String → ℕ
  pub name : ℕ → String
  pub known : String → Bool
  pub rank : String → ℕ

-- The execution is there, and is not FAILED.
abbrev pub IsOpen : (execution_id : ℕ) → List WorkflowExecution → Type 0
IsOpen execution_id es =
    (has_execution execution_id es ≡ true)
    × All (λ e. e.id ≡ execution_id → e.status ≢ WorkflowStatus.failed) es

abbrev pub has_name : (execution_id : ℕ) (ref_id : String) → Task → Bool
has_name execution_id ref_id t = t.execution_id == execution_id && str_eq t.ref_id ref_id

-- The action is in the registry, and succeeds with valid JSON in any context.
abbrev pub Succeeds : External → TaskRegistry → (action : String) (input : Json) → Type 0
Succeeds ext registry action input =
    (handler : TaskHandler) × (lookup registry action ≡ some handler)
    × ((ctx : Context)
        → (output : String) × (handler ctx input ≡ ok output) × (ext.jsonb_valid output ≡ true))

module _ (ext : External) (registry : TaskRegistry) (plan : Plan) where
  -- What a row never loses.
  pub record IsPlanned (t : Task) : Type 0 where
    pub number : plan.number t.ref_id ≡ t.id
    pub name : plan.name t.id ≡ t.ref_id
    pub plain : IsPlain t.ref_id
    pub deps :
        All
          (λ d. (plan.rank d < plan.rank t.ref_id) × (plan.known d ≡ true))
          (deps_of t.dependencies)
    pub succeeds : Succeeds ext registry t.action t.input

  -- A row, its id in the list, its events in the channel, and the ledger. The id is handed out when
  -- the counter is at 0, and then is in one place.
  pub record IsTracked (ledger : Ledger) (pending : List String) (events : List TaskCompletedEvent)
      (t : Task) : Type 0 where
    pub planned : IsPlanned t
    pub counted : IsCounted ledger t
    pub once :
        listed ext t.id pending + reported t.id events + one_if (ended t.ref_id ledger)
        ≡ one_if (is_zero t.in_degree)
    pub done :
        reported t.id events + one_if (ended t.ref_id ledger) ≡ one_if (is_completed t.status)

  abbrev pub AreTracked : Ledger → List String → List TaskCompletedEvent → List Task → Type 0
  AreTracked ledger pending events =
      All (λ t. t.execution_id ≡ plan.execution_id → IsTracked ledger pending events t)

  abbrev pub IsExpected : List Task → TaskCompletedEvent → Type 0
  IsExpected ts event =
      (event.execution_id ≡ plan.execution_id)
      × (event.ref_id ≡ plan.name event.task_id)
      × (any (is_row plan.execution_id event.task_id) ts ≡ true)

  abbrev pub IsListed : List Task → String → Type 0
  IsListed ts s =
      (id : ℕ) × (ext.uuid_parse s ≡ some id) × (any (is_row plan.execution_id id) ts ≡ true)

  pub record OnTrack (ledger : Ledger) (w : World) : Type 0 where
    pub calm : w.outages ≡ []
    pub no_retries : w.retry ≡ []
    pub no_terminations : w.terminated ≡ []
    pub keyed : IsKeyed w.tasks
    pub rows : AreTracked ledger w.pending w.completed w.tasks
    pub names :
        (r : String) → plan.known r ≡ true → any (has_name plan.execution_id r) w.tasks ≡ true
    pub good : IsGood ledger
    pub once : IsOnce ledger
    pub listed : All (IsListed w.tasks) w.pending
    pub expected : All (IsExpected w.tasks) w.completed
    pub open_status : IsOpen plan.execution_id w.executions
    pub closing :
        w.completed ≡ []
        → IsAllCompleted plan.execution_id w.tasks
        → IsAllFinished plan.execution_id w.executions

  -- What is left to do for a row: to run it, and to receive its end.
  abbrev pub left : Ledger → Task → ℕ
  left ledger t =
      if t.execution_id == plan.execution_id
      then one_if (not (is_completed t.status)) + one_if (not (ended t.ref_id ledger))
      else 0

  abbrev pub work_left : Ledger → World → ℕ
  work_left ledger w = sum (left ledger) w.tasks
