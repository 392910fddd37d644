-- ===== src/Ordering/Workers.antt =====
-- ProcessNextTask of internal/worker/worker.go on tables with the same rows in another order.
use go_tempo.Base.{ℕ, String, List, Option, none, some}
use go_tempo.Domain.{Task}
use go_tempo.External.{External}
use go_tempo.World.{World, Error, Result, ok, err}
use go_tempo.Worker.Registry.{Context, lookup}
use go_tempo.Worker.Process.{
  Worker, pop_and_fetch_task, handle_skipped_task, claim_task, reject_unknown_action,
  execute_task_action, retry_task, mark_task_failed_permanently, handle_task_failure,
  handle_task_success, run_claimed, process_next_task, parsed, claimed, returned, act, settle,
}
use go_tempo.Ordering.Rows.{Reordered}
use go_tempo.Ordering.Rules.{Orderless, Agrees}
use go_tempo.Ordering.Statements.{statement_rules}

module _ (ext : External) (worker : Worker) where
  parsed-Orderless : (o : Option ℕ) → Orderless (parsed ext worker o)
  parsed-Orderless none = search statement_rules
  parsed-Orderless (some id) = search statement_rules

  pop_and_fetch_task-Orderless : Orderless (pop_and_fetch_task ext worker)
  unfolding pop_and_fetch_task
  pop_and_fetch_task-Orderless = search (statement_rules, parsed-Orderless)

  handle_skipped_task-Orderless : (t : Task) → Orderless (handle_skipped_task ext worker t)
  unfolding handle_skipped_task
  handle_skipped_task-Orderless t = search statement_rules depth 9

  claimed-Orderless : (t : Task) (r : Result Unit) → Orderless (claimed ext worker t r)
  claimed-Orderless t (ok a) = search statement_rules
  claimed-Orderless t (err e) = search statement_rules

  claim_task-Orderless : (t : Task) → Orderless (claim_task ext worker t)
  unfolding claim_task
  claim_task-Orderless t = search (statement_rules, claimed-Orderless)

  reject_unknown_action-Orderless : (t : Task) → Orderless (reject_unknown_action ext worker t)
  unfolding reject_unknown_action
  reject_unknown_action-Orderless t = search statement_rules depth 9

  returned-Orderless : (r : Result String) → Orderless (returned ext worker r)
  returned-Orderless (ok output) = search statement_rules
  returned-Orderless (err e) = search statement_rules

  execute_task_action-Orderless :
      (ctx : Context) (t : Task) → Orderless (execute_task_action ext worker ctx t)
  unfolding execute_task_action
  execute_task_action-Orderless ctx t =
      elim (lookup worker.registry t.action) as (λ o. Orderless (act ext worker ctx t o)) [
        | none ↦ reject_unknown_action-Orderless t
        | some handler ↦ returned-Orderless (handler ctx t.input)
      ]

  retry_task-Orderless : (t : Task) → Orderless (retry_task ext worker t)
  unfolding retry_task
  retry_task-Orderless t = search statement_rules

  mark_task_failed_permanently-Orderless :
      (t : Task) (e : Error) → Orderless (mark_task_failed_permanently ext worker t e)
  unfolding mark_task_failed_permanently
  mark_task_failed_permanently-Orderless t e = search statement_rules depth 9

  handle_task_failure-Orderless :
      (t : Task) (e : Error) → Orderless (handle_task_failure ext worker t e)
  unfolding handle_task_failure
  handle_task_failure-Orderless t e =
      search (statement_rules, retry_task-Orderless, mark_task_failed_permanently-Orderless)

  handle_task_success-Orderless :
      (t : Task) (output : String) → Orderless (handle_task_success ext worker t output)
  unfolding handle_task_success
  handle_task_success-Orderless t output = search statement_rules

  settle-Orderless : (t : Task) (r : Result String) → Orderless (settle ext worker t r)
  settle-Orderless t (ok output) = handle_task_success-Orderless t output
  settle-Orderless t (err e) = handle_task_failure-Orderless t e

  run_claimed-Orderless :
      (ctx : Context) (o : Option Task) → Orderless (run_claimed ext worker ctx o)
  unfolding run_claimed
  run_claimed-Orderless ctx none = search statement_rules
  run_claimed-Orderless ctx (some t) =
      search (statement_rules, execute_task_action-Orderless, settle-Orderless) depth 9

  process_next_task-Orderless : (ctx : Context) → Orderless (process_next_task ext worker ctx)
  unfolding process_next_task
  process_next_task-Orderless ctx = search (
    statement_rules, pop_and_fetch_task-Orderless, handle_skipped_task-Orderless,
    claim_task-Orderless, run_claimed-Orderless,
  )

  -- Whatever fails, ProcessNextTask does the same with the rows of tasks in another order: its outcome
  -- is the same, and so is the world after it, but for the order of the rows; if their ids are distinct.
  pub process_next_task-Agrees :
      (ctx : Context) (w : World) (ts : List Task)
      → Reordered w.tasks ts
      → Agrees (process_next_task ext worker ctx) w ts
  process_next_task-Agrees ctx w ts h = (process_next_task-Orderless ctx).keep w ts h
