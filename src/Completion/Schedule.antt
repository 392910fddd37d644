-- ===== src/Completion/Schedule.antt =====
-- The loops of internal/worker/worker.go and internal/coordinator/coordinator.go as one sequence of
-- turns. In a turn a thread runs its handler once.
use go_tempo.Base.{
  ◌+◌, ◌≤◌, ◌≡◌, ◌⊎◌, refl, sym, ap, subst, ◌∙◌, Bool, true, false, List, [], ◌∷◌, String, arith,
  length, inl, inr, All, any, Bool-cases,
}
use go_tempo.External.{External, Documented}
use go_tempo.World.{World}
use go_tempo.Kahn.{Ledger}
use go_tempo.Coordinator.{coordinate_completed, coordinate_terminated}
use go_tempo.Worker.Registry.{Context, TaskRegistry}
use go_tempo.Worker.Process.{process_next_task}
use go_tempo.System.{main_worker, retry_worker}
use go_tempo.Completion.Track.{Plan, OnTrack, work_left}
use go_tempo.Completion.WorkerTurn.{Advances, work_turn}
use go_tempo.Completion.CoordinatorTurn.{coordinate_turn}
use go_tempo.Completion.Idle.{
  work-idle, work_again-idle, coordinate-idle, coordinate_terminated-idle,
}
use go_tempo.Completion.Quiet.{IsOver, quiet-IsOver}

-- A thread of either pool, with what the handler of the action sees, or the coordinator, at one of its
-- two channels.
pub data Activity : Type 0 where
  work : (worker_id : String) (ctx : Context) → Activity
  work_again : (worker_id : String) (ctx : Context) → Activity
  coordinate coordinate_failures : Activity

module _ (ext : External) (registry : TaskRegistry) where
  unfoldable pub run_activity : Activity → World → World
  run_activity (work worker_id ctx) w =
      (process_next_task ext (main_worker registry worker_id) ctx w).1
  run_activity (work_again worker_id ctx) w =
      (process_next_task ext (retry_worker registry worker_id) ctx w).1
  run_activity coordinate w = (coordinate_completed ext w).1
  run_activity coordinate_failures w = (coordinate_terminated ext w).1

  unfoldable pub run_activities : List Activity → World → World
  unfolding run_activity
  run_activities [] w = w
  run_activities (turn ∷ turns) w = run_activities turns (run_activity turn w)

  -- One block of turns after the other.
  unfoldable pub run_blocks : List (List Activity) → World → World
  unfolding run_activities
  run_blocks [] w = w
  run_blocks (block ∷ blocks) w = run_blocks blocks (run_activities block w)

abbrev is_work : Activity → Bool
is_work (work worker_id ctx) = true
is_work _ = false

abbrev is_coordinate : Activity → Bool
is_coordinate coordinate = true
is_coordinate _ = false

-- The block has a turn of a main worker, and one of the coordinator at the completed tasks.
abbrev pub IsFair : List Activity → Type 0
IsFair block = (any is_work block ≡ true) × (any is_coordinate block ≡ true)

module _ (ext : External) (doc : Documented ext) (registry : TaskRegistry) (plan : Plan) where
  -- There is no id for a worker, or it has no turn.
  abbrev IsIdle : List Activity → World → Type 0
  IsIdle turns w =
      (any is_work turns ≡ true → w.pending ≡ [])
      × (any is_coordinate turns ≡ true → w.completed ≡ [])

  -- The workflow is on its way, with no more to do than before.
  abbrev Stays : Ledger → World → World → Type 0
  Stays ledger v w =
      (ended : Ledger) × OnTrack ext registry plan ended w
      × (work_left ext registry plan ended w ≤ work_left ext registry plan ledger v)

  turn-Advances :
      (turn : Activity) (ledger : Ledger) (w : World)
      → OnTrack ext registry plan ledger w
      → Advances ext registry plan ledger w (run_activity ext registry turn w)
        ⊎ IsIdle (turn ∷ []) w × (run_activity ext registry turn w ≡ w)
  unfolding run_activity
  turn-Advances (work worker_id ctx) ledger w track =
      elim (work_turn ext registry plan worker_id ctx ledger w track) [
        | inl less ↦ inl less
        | inr (none, same) ↦ inr (((λ is. none), (λ is. absurd cc)), same)
      ]
  turn-Advances coordinate ledger w track =
      elim (coordinate_turn ext doc registry plan ledger w track) [
        | inl less ↦ inl less
        | inr (none, same) ↦ inr (((λ is. absurd cc), (λ is. none)), same)
      ]
  turn-Advances (work_again worker_id ctx) ledger w track = inr (
    ((λ is. absurd cc), (λ is. absurd cc)),
    work_again-idle ext registry worker_id ctx w track.no_retries track.calm,
  )
  turn-Advances coordinate_failures ledger w track = inr (
    ((λ is. absurd cc), (λ is. absurd cc)),
    coordinate_terminated-idle ext w track.no_terminations track.calm,
  )

  turns-Stays :
      (turns : List Activity) (ledger : Ledger) (w : World)
      → OnTrack ext registry plan ledger w
      → Stays ledger w (run_activities ext registry turns w)
  unfolding run_activities
  turns-Stays [] ledger w track = (ledger, track, omega arith)
  turns-Stays (turn ∷ turns) ledger w track = elim (turn-Advances turn ledger w track) [
    | inl (now, on, less) ↦
        let (last, end, le) = turns-Stays turns now (run_activity ext registry turn w) on in
        (last, end, omega (arith, less, le))
    | inr (idle, same) ↦
        subst (Stays ledger w) (ap (run_activities ext registry turns) (sym same))
          (turns-Stays turns ledger w track)
  ]

  -- Turns in which nothing happens find nothing to do.
  turns-Advances :
      (turns : List Activity) (ledger : Ledger) (w : World)
      → OnTrack ext registry plan ledger w
      → Advances ext registry plan ledger w (run_activities ext registry turns w)
        ⊎ IsIdle turns w × (run_activities ext registry turns w ≡ w)
  unfolding run_activities
  turns-Advances [] ledger w track = inr (((λ is. absurd cc), (λ is. absurd cc)), refl)
  turns-Advances (turn ∷ turns) ledger w track = elim (turn-Advances turn ledger w track) [
    | inl (now, on, less) ↦
        let (last, end, le) = turns-Stays turns now (run_activity ext registry turn w) on in
        inl (last, end, omega (arith, less, le))
    | inr (idle, same) ↦ elim (turns-Advances turns ledger w track) [
      | inl less ↦ inl (
          subst (Advances ext registry plan ledger w)
            (ap (run_activities ext registry turns) (sym same)) less)
      | inr (rest, still) ↦ inr (
        (
          (λ is. elim (Bool-cases (is_work turn)) [
            | inl here ↦ idle.0 (rw here refl)
            | inr away ↦ rest.0 (rw away at is)
          ]),
          (λ is. elim (Bool-cases (is_coordinate turn)) [
            | inl here ↦ idle.1 (rw here refl)
            | inr away ↦ rest.1 (rw away at is)
          ]),
        ),
        ap (run_activities ext registry turns) same ∙ still,
      )
    ]
  ]

  -- In a world with nothing in the lists and channels, nothing happens.
  abbrev IsAtRest : World → Type 0
  IsAtRest w =
      (w.pending ≡ [])
      × (w.retry ≡ [])
      × (w.completed ≡ [])
      × (w.terminated ≡ [])
      × (w.outages ≡ [])

  turn-idle : (turn : Activity) (w : World) → IsAtRest w → run_activity ext registry turn w ≡ w
  unfolding run_activity
  turn-idle (work worker_id ctx) w rest = work-idle ext registry worker_id ctx w rest.0 rest.4
  turn-idle (work_again worker_id ctx) w rest =
      work_again-idle ext registry worker_id ctx w rest.1 rest.4
  turn-idle coordinate w rest = coordinate-idle ext w rest.2 rest.4
  turn-idle coordinate_failures w rest = coordinate_terminated-idle ext w rest.3 rest.4

  turns-idle :
      (turns : List Activity) (w : World) → IsAtRest w → run_activities ext registry turns w ≡ w
  unfolding run_activities
  turns-idle [] w rest = refl
  turns-idle (turn ∷ turns) w rest =
      ap (run_activities ext registry turns) (turn-idle turn w rest) ∙ turns-idle turns w rest

  blocks-idle :
      (blocks : List (List Activity)) (w : World)
      → IsAtRest w
      → run_blocks ext registry blocks w ≡ w
  unfolding run_blocks
  blocks-idle [] w rest = refl
  blocks-idle (block ∷ blocks) w rest =
      ap (run_blocks ext registry blocks) (turns-idle block w rest) ∙ blocks-idle blocks w rest

  module _ (refs : List String) (known : All (λ r. plan.known r ≡ true) refs) where
    pub blocks-IsOver :
        (blocks : List (List Activity)) (ledger : Ledger) (w : World)
        → OnTrack ext registry plan ledger w
        → All IsFair blocks
        → work_left ext registry plan ledger w + 1 ≤ length blocks
        → IsOver plan.execution_id refs (run_blocks ext registry blocks w)
    unfolding run_blocks
    blocks-IsOver [] ledger w track fair long = absurd (omega (arith, long))
    blocks-IsOver (block ∷ blocks) ledger w track fair long =
        elim (turns-Advances block ledger w track) [
          | inl (now, on, less) ↦
              blocks-IsOver blocks now (run_activities ext registry block w) on fair.1
                (omega (arith, less, long))
          | inr (idle, same) ↦
              let none = idle.0 fair.0.0 in
              let quiet = idle.1 fair.0.1 in
              let still =
                ap (run_blocks ext registry blocks) same
                ∙ blocks-idle blocks w
                    (none, track.no_retries, quiet, track.no_terminations, track.calm) in
              subst (IsOver plan.execution_id refs) (sym still)
                (quiet-IsOver ext registry plan refs known ledger w track none quiet)
        ]
