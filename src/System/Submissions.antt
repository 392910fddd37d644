-- ===== src/System/Submissions.antt =====
-- The service hands out the first tasks of a workflow, once its rows are there.
use go_tempo.Base.{
  All, ℕ, ◌+◌, ◌≡◌, refl, sym, subst, ◌∙◌, List, [], map, Option, none, some, arith, inl, inr,
}
use go_tempo.Domain.{Task, WorkflowExecution}
use go_tempo.External.{External, Documented}
use go_tempo.World.{
  World, M, Result, Result-cases, ok, err, Preserves, preserves_rules, queues_rules, pure, ◌>>◌,
  bind-ok, bind-err, bind-Preserves, attempt-Preserves,
}
use go_tempo.Repository.Tasks.{create_execution}
use go_tempo.Repository.Evolution.{Methods, methods_under, progress_steps, IsFresh}
use go_tempo.Repository.Locks.{IsKeyed}
use go_tempo.Repository.Atomic.{create_execution-atomic}
use go_tempo.Repository.Waiting.{create_execution-Waits}
use go_tempo.Redis.{redis_rules}
use go_tempo.Redis.Queue.{RedisQueue, main_queue}
use go_tempo.Mapper.{CreateWorkflowRequest}
use go_tempo.Service.{get_root_tasks, enqueue_root_tasks, submit_workflow, answer, handle_submit}
use go_tempo.System.Handlers.{to_workflow_execution-IsFresh}
use go_tempo.System.Tokens.{occurs, listed, queued}
use go_tempo.System.Releases.{roots-released}
use go_tempo.System.Covered.{Covers, Covers-closed, IsCovered, kept, enqueue-IsCovered, then-keeps}

module _ (ext : External) (doc : Documented ext) (rest : ℕ → ℕ) where
  abbrev Clear : World → Type 0
  Clear = IsCovered ext doc rest []

  abbrev methods : (need : ℕ → ℕ) → Methods ext (Covers need)
  methods need = methods_under ext progress_steps (Covers-closed ext need)

  -- The tables and the lists after CreateExecution, with the first tasks still to be handed out.
  created-IsCovered :
      (e : WorkflowExecution) (ts : List Task) (w : World)
      → All IsFresh ts
      → Clear w
      → (create_execution ext e ts w).0 ≡ ok tt
      → IsCovered ext doc rest (map (λ t. t.id) (get_root_tasks ts)) (create_execution ext e ts w).1
  created-IsCovered e ts w fresh c done =
      let need = λ (id : ℕ). queued ext id w + occurs id [] + rest id in
      let after = ((methods need).creates e ts fresh).keep w (record { holds = c }) in
      let same = λ (id : ℕ).
        (Preserves.keep
          (create_execution-Waits ext
            {Q = λ p q. listed ext id p + listed ext id q ≡ queued ext id w} e ts)
          w (record { waits = refl })).waits in
      elim (create_execution-atomic ext e ts w) [
        | inl (_, (_, rows, _)) ↦
            let keyed = subst IsKeyed rows after.holds.keyed in
            record {
              keyed = after.holds.keyed;
              within = λ id. rw rows (
                  let once = roots-released id w.tasks ts keyed in
                  omega (arith, same id, once, c.within id));
            }
        | inr (x, failed, _) ↦ absurd (let no : ok tt ≡ err x = sym done ∙ failed in cc)
      ]

  submit_workflow-Clear :
      (q : RedisQueue) (e : WorkflowExecution) (ts : List Task)
      → All IsFresh ts
      → Preserves Clear (submit_workflow ext q e ts)
  unfolding submit_workflow
  submit_workflow-Clear q e ts fresh = record {
    keep = λ w c.
        let create = create_execution ext e ts in
        let follow : Unit → M ℕ = λ _. enqueue_root_tasks ext q (get_root_tasks ts) >> pure e.id in
        elim (Result-cases (create w).0) [
          | inl (a, done) ↦ rw (bind-ok create follow w a done) (
              then-keeps {P = Clear} (enqueue_root_tasks ext q (get_root_tasks ts)) (λ _. pure e.id)
                (create w).1
                (enqueue-IsCovered ext doc rest q (get_root_tasks ts) (create w).1
                  (created-IsCovered e ts w fresh c done))
                (λ _. search preserves_rules))
          | inr (x, lost) ↦ rw (bind-err create follow w x lost) (
              (kept ext doc rest [] create (λ need. (methods need).creates e ts fresh)
                  (λ Q. create_execution-Waits ext e ts)).keep
                w c)
        ];
  }

  answer-Clear : (r : Result ℕ) → Preserves Clear (answer r)
  answer-Clear (ok id) =
      kept ext doc rest [] (answer (ok id)) (λ need. search redis_rules) (λ Q. search queues_rules)
  answer-Clear (err e) = search preserves_rules

  pub handle_submit-Clear :
      (new_id : ℕ → ℕ) (request : Option CreateWorkflowRequest)
      → Preserves Clear (handle_submit ext new_id request)
  unfolding handle_submit
  handle_submit-Clear new_id none = search preserves_rules
  handle_submit-Clear new_id (some req) =
      bind-Preserves _ _
        (attempt-Preserves _
          (submit_workflow-Clear main_queue _ _ (to_workflow_execution-IsFresh new_id req)))
        answer-Clear
