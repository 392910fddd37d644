-- ===== src/System/Advance.antt =====
-- What the methods of the repositories keep, every step of a thread keeps.
use go_tempo.Base.{ℕ, ◌≡◌, refl, true, List, String, Option, none, some}
use go_tempo.Domain.{Task, WorkflowExecution, can_retry}
use go_tempo.External.{External}
use go_tempo.World.{
  Error, Result, ok, err, Preserves, OnTables, bind-Preserves, attempt-Preserves, if-Preserves,
}
use go_tempo.Repository.Tasks.{increment_retry_count}
use go_tempo.Repository.Evolution.{Methods}
use go_tempo.Redis.{redis_rules}
use go_tempo.Worker.Registry.{Context, TaskHandler, lookup}
use go_tempo.Worker.Process.{Worker}
use go_tempo.Worker.Phases.{
  Phase, idle, popped, fetched, skipped, claimed, rejecting, rejected, completing, retrying, acted,
  failing, gone, advance, after_pop, after_find, find_parsed, after_skip, after_claim, start_action,
  after_increment,
}

module _ {ℓ} (ext : External) (worker : Worker) {Q : List WorkflowExecution → List Task → Type ℓ}
    (keeps : Methods ext Q) where
  open keeps use {finds, claims, completes, fails, skips, updates}

  after_pop-keeps : (r : Result String) → Preserves (OnTables Q) (after_pop ext worker r)
  after_pop-keeps (ok task_id) = search redis_rules
  after_pop-keeps (err e) = search redis_rules

  after_find-keeps : (r : Result Task) → Preserves (OnTables Q) (after_find ext worker r)
  after_find-keeps (ok task) = search redis_rules
  after_find-keeps (err e) = search redis_rules

  find_parsed-keeps : (o : Option ℕ) → Preserves (OnTables Q) (find_parsed ext worker o)
  find_parsed-keeps none = search redis_rules
  find_parsed-keeps (some id) = search (redis_rules, finds, after_find-keeps)

  after_skip-keeps :
      (t : Task) (r : Result Unit) → Preserves (OnTables Q) (after_skip ext worker t r)
  after_skip-keeps t (ok a) = search redis_rules
  after_skip-keeps t (err e) = search redis_rules

  after_claim-keeps :
      (t : Task) (r : Result Unit) → Preserves (OnTables Q) (after_claim ext worker t r)
  after_claim-keeps t (ok a) = search redis_rules
  after_claim-keeps t (err e) = search redis_rules

  after_increment-keeps :
      (t : Task) (r : Result Unit) → Preserves (OnTables Q) (after_increment ext worker t r)
  after_increment-keeps t (ok a) = search redis_rules
  after_increment-keeps t (err e) = search redis_rules

  start_action-keeps :
      (ctx : Context) (t : Task) (o : Option TaskHandler)
      → Preserves (OnTables Q) (start_action ext worker ctx t o)
  start_action-keeps ctx t none = search (redis_rules, fails) depth 8
  start_action-keeps ctx t (some handler) = search redis_rules

  -- IncrementRetryCount is called for a task that failed and may be retried.
  pub advance-keeps :
      (ctx : Context) (phase : Phase)
      → ((t : Task) (e : Error)
          → phase ≡ acted t (err e)
          → can_retry t t.max_retries ≡ true
          → Preserves (OnTables Q) (increment_retry_count t.id t.version))
      → Preserves (OnTables Q) (advance ext worker ctx phase)
  unfolding advance
  advance-keeps ctx idle retry = search (redis_rules, after_pop-keeps)
  advance-keeps ctx (popped task_id) retry = find_parsed-keeps (ext.uuid_parse task_id)
  advance-keeps ctx (fetched t) retry =
      search (redis_rules, skips, claims, after_skip-keeps, after_claim-keeps)
  advance-keeps ctx (skipped t) retry = search redis_rules
  advance-keeps ctx (claimed t) retry = start_action-keeps ctx t (lookup worker.registry t.action)
  advance-keeps ctx (rejecting t) retry = search redis_rules
  advance-keeps ctx (rejected t) retry = search (redis_rules, updates)
  advance-keeps ctx (acted t (ok output)) retry = search (redis_rules, completes)
  advance-keeps ctx (acted t (err e)) retry =
      if-Preserves _ _ _
        (λ again.
          bind-Preserves _ _
            (bind-Preserves _ _ (search redis_rules)
              (λ _. attempt-Preserves _ (retry t e refl again)))
            (after_increment-keeps t))
        (λ never. search (redis_rules, fails) depth 8)
  advance-keeps ctx (completing t) retry = search redis_rules
  advance-keeps ctx (retrying t) retry = search redis_rules
  advance-keeps ctx (failing t e) retry = search (redis_rules, updates)
  advance-keeps ctx (gone t e) retry = search redis_rules
