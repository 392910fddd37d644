-- ===== src/System/Exhaustion.antt =====
-- The retry worker alone: StartPool with one thread, for a task whose action always fails.
use go_tempo.Base.{
  ℕ, zero, suc, ◌+◌, ◌≡◌, refl, true, false, String, List, [], ◌∷◌, ◌++◌, some, arith,
}
use go_tempo.Domain.{
  Json, Task, TaskStatus, TaskTerminationType, can_retry, new_task_terminated_event,
}
use go_tempo.External.{External, Documented, error_output}
use go_tempo.World.{World, M, Error, Result, ok, err, pure, ignore, actions, ◌>>◌}
use go_tempo.Repository.Rows.{has_task}
use go_tempo.Worker.Registry.{Context, TaskHandler, TaskRegistry, lookup}
use go_tempo.Worker.Failures.{IsFailedExecution, fail_executions}
use go_tempo.Worker.Process.{error_text, process_next_task}
use go_tempo.System.Steps.{retry_worker}
use go_tempo.System.Attempts.{waiting, retried, step-waiting, retry-waiting, fail-waiting}

-- What the end of the retries leaves: nothing in the list, the workflow and the row FAILED, with the
-- error's text, and one termination more.
abbrev pub IsExhausted : Task → List Task → Error → World → Result (Unit {0}) × World → Type 0
IsExhausted t others e w (r, v) =
    (r ≡ ok tt)
    × (v.retry ≡ [])
    × IsFailedExecution t.execution_id v.executions
    × (v.terminated
        ≡ w.terminated
          ++ new_task_terminated_event t.execution_id t.id t.ref_id TaskTerminationType.failed
              (error_text e)
            ∷ [])
    × (u : Task) × (v.tasks ≡ u ∷ others)
    × (u.id ≡ t.id)
    × (u.status ≡ TaskStatus.failed)
    × (u.last_error ≡ error_text e)
    × (u.retry_count ≡ t.max_retries)

module _ (ext : External) (registry : TaskRegistry) (me : String) (ctx : Context) where
  -- The loop of the thread, for as many tasks.
  unfoldable pub rounds : ℕ → M Unit
  rounds zero = pure tt
  rounds (suc n) = ignore (process_next_task ext (retry_worker registry me) ctx) >> rounds n

module _ (ext : External) (doc : Documented ext) (registry : TaskRegistry) (me : String)
    (ctx : Context) where
  -- A task whose action always fails, alone in the list of retries, with services that answer: the
  -- thread of the retry worker takes it as often as it has retries left and once more, and then its
  -- row and its workflow are FAILED, its termination is published once, and the list is empty; if its
  -- action is in the registry, it is not to be skipped, no other row has its id, and the error's text
  -- makes valid JSON between quotes.
  pub rounds-exhaust :
      (handler : TaskHandler) (e : Error) (left : ℕ) (t : Task) (others : List Task) (w : World)
      → lookup registry t.action ≡ some handler
      → ((input : Json) → handler ctx input ≡ err e)
      → ext.jsonb_valid (error_output (error_text e)) ≡ true
      → has_task t.id others ≡ false
      → t.skip_hint ≡ false
      → t.retry_count + left ≡ t.max_retries
      → IsExhausted t others e w (rounds ext registry me ctx (suc left) (waiting ext t others w))
  unfolding rounds actions can_retry
  rounds-exhaust handler e zero t others w known fails valid h unskipped count =
      let never : can_retry t t.max_retries ≡ false = ground (arith, count) in
      let (ms, last) =
        fail-waiting ext doc registry me ctx t.action handler known e fails t others w refl h never
          valid in
      rw (step-waiting ext doc registry me ctx t others w h unskipped, last)
        (
          refl,
          refl,
          fail_executions t.execution_id w.executions,
          refl,
          _,
          refl,
          refl,
          refl,
          refl,
          omega (arith, count),
        )
  rounds-exhaust handler e (suc left) t others w known fails valid h unskipped count =
      let again : can_retry t t.max_retries ≡ true = ground (arith, count) in
      let (ms, first) =
        retry-waiting ext doc registry me ctx t.action handler known e fails t others w refl h
          again in
      rw (step-waiting ext doc registry me ctx t others w h unskipped, first)
        (rounds-exhaust handler e left (retried me t) others (record w { metrics = ms }) known fails
          valid h unskipped (omega (arith, count)))
