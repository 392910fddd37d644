-- ===== src/Completion/After.antt =====
-- A workflow after the coordinator has received the end of one of its tasks.
use go_tempo.Base.{
  ℕ, ◌≡◌, ◌≢◌, refl, sym, ap, ◌∙◌, true, false, List, [], ◌∷◌, map, String, null, arith, Bool-cases,
  inl, inr, is_zero, All, All-append, All-implies, All-zip, any, ==_iff,
}
use go_tempo.Domain.{
  Task, TaskStatus, TaskCompletedEvent, WorkflowExecution, WorkflowStatus, is_completed,
}
use go_tempo.External.{External, Documented}
use go_tempo.World.{World}
use go_tempo.Kahn.{Ledger}
use go_tempo.Repository.Rows.{has_execution, update_where}
use go_tempo.Repository.Workflows.{may_update}
use go_tempo.Repository.Locks.{IsKeyed}
use go_tempo.Coordinator.Finish.{IsAllCompleted, IsAllFinished}
use go_tempo.Worker.Registry.{TaskRegistry}
use go_tempo.System.Tokens.{one_if, listed, listed-append, is_named}
use go_tempo.Completion.Counts.{one_if_le}
use go_tempo.Completion.Rows.{is_row, first_where-is_row}
use go_tempo.Completion.Track.{IsOpen, Plan, IsTracked, IsListed, OnTrack}
use go_tempo.Completion.Freed.{now_ready-rows}
use go_tempo.Completion.WorkerTurn.{Advances}
use go_tempo.Completion.Unblocked
use go_tempo.Completion.Unblocked.{receiving}

module _ (ext : External) (doc : Documented ext) (registry : TaskRegistry) (plan : Plan)
    (ledger : Ledger) (task_id : ℕ) (ref_id : String) (later : List TaskCompletedEvent)
    (w : World) where
  abbrev event : TaskCompletedEvent
  event = Unblocked.event ext doc registry plan ledger task_id ref_id later w

  abbrev ledger' : Ledger
  ledger' = Unblocked.ledger' ext doc registry plan ledger task_id ref_id later w

  abbrev e : ℕ
  e = Unblocked.e ext doc registry plan ledger task_id ref_id later w

  abbrev rows' : List Task
  rows' = Unblocked.rows' ext doc registry plan ledger task_id ref_id later w

  abbrev freed : List ℕ
  freed = Unblocked.freed ext doc registry plan ledger task_id ref_id later w

  abbrev pending' : List String
  pending' = Unblocked.pending' ext doc registry plan ledger task_id ref_id later w

  abbrev now : World
  now = receiving ext doc registry plan ledger task_id ref_id later w

  module _ (track : OnTrack ext registry plan ledger now) where
    freed-IsListed :
        (ids : List ℕ)
        → All (λ id. any (is_row e id) w.tasks ≡ true) ids
        → All (IsListed ext registry plan rows') (map ext.uuid_string ids)
    freed-IsListed [] h = tt
    freed-IsListed (id ∷ ids) h = (
      (
        id,
        doc.parse-string id,
        (Unblocked.shift ext doc registry plan ledger task_id ref_id later w track) id ∙ h.0,
      ),
      freed-IsListed ids h.1,
    )

    -- The workflow in the world after the turn, whatever became of its execution's row.
    pub after :
        (v : World)
        → v.outages ≡ []
        → v.retry ≡ []
        → v.terminated ≡ []
        → v.tasks ≡ rows'
        → v.pending ≡ pending'
        → v.completed ≡ later
        → IsKeyed v.tasks
        → IsOpen e v.executions
        → (later ≡ [] → IsAllCompleted e rows' → IsAllFinished e v.executions)
        → Advances ext registry plan ledger now v
    after v calm no_retries no_terminations rows list events keyed open_status closing = (
      ledger',
      record {
        calm = calm;
        no_retries = no_retries;
        no_terminations = no_terminations;
        keyed = keyed;
        rows =
            rw (rows, list, events)
              (Unblocked.tracked' ext doc registry plan ledger task_id ref_id later w track);
        names = λ r k. rw rows (
            (Unblocked.named_rows ext doc registry plan ledger task_id ref_id later w track) r
            ∙ track.names r k);
        good = (refl, track.good);
        once = (Unblocked.once' ext doc registry plan ledger task_id ref_id later w track);
        listed =
            rw (rows, list)
              (All-append _ w.pending (map ext.uuid_string freed)
                (All-implies _
                  (λ x l. (
                    l.0,
                    l.1,
                    (Unblocked.shift ext doc registry plan ledger task_id ref_id later w track) l.0
                        ∙ l.2,
                  ))
                  w.pending track.listed)
                (freed-IsListed freed (now_ready-rows e ref_id ledger' w.tasks)));
        expected =
            rw (rows, events)
              (All-implies _
                (λ x k. (
                  k.0,
                  k.1,
                  (Unblocked.shift ext doc registry plan ledger task_id ref_id later w track)
                        x.task_id
                      ∙ k.2,
                ))
                later track.expected.1);
        open_status = open_status;
        closing = λ none all. closing (rw events at none) (rw rows at all);
      },
      rw rows (Unblocked.less_left ext doc registry plan ledger task_id ref_id later w track),
    )

    -- If a task was unblocked, not all are COMPLETED.
    pub unblocked-open : IsKeyed rows' → null freed ≡ false → IsAllCompleted e rows' → ⊥
    unfolding is_completed
    unblocked-open keyed some_freed all = go freed refl (now_ready-rows e ref_id ledger' w.tasks)
      where
        go : (ids : List ℕ) → freed ≡ ids → All (λ id. any (is_row e id) w.tasks ≡ true) ids → ⊥
        go [] none h = absurd (let no : true ≡ false = sym (ap null none) ∙ some_freed in cc)
        go (id ∷ ids) freed_now h =
            let (u, found, ours, mine, both) =
              first_where-is_row
                {P = λ u.
                  (u.execution_id ≡ e → IsTracked ext registry plan ledger' pending' later u)
                  × (u.execution_id ≡ e → u.status ≡ TaskStatus.completed)}
                e id rows' keyed
                ((Unblocked.shift ext doc registry plan ledger task_id ref_id later w track) id
                  ∙ h.0)
                (All-zip _ (λ u h k. (h, k)) rows'
                  (Unblocked.tracked' ext doc registry plan ledger task_id ref_id later w track)
                  all) in
            let row = both.0 ours in
            let total = row.once in
            let done = row.done ∙ ap (λ s. one_if (is_completed s)) (both.1 ours) in
            let split = listed-append ext u.id w.pending (map ext.uuid_string freed) in
            let first : one_if (is_named u.id (ext.uuid_parse (ext.uuid_string id))) ≡ 1 =
              rw (doc.parse-string id) (ap one_if ((==_iff id u.id).1 (sym mine))) in
            let shown = ap (λ l. listed ext u.id (map ext.uuid_string l)) freed_now in
            omega (arith, total, done, split, shown, first, one_if_le (is_zero u.in_degree))

    unfailed-completed :
        (es : List WorkflowExecution)
        → All (λ x. x.id ≡ e → x.status ≢ WorkflowStatus.failed) es
        → All
            (λ x. x.id ≡ e → x.status ≢ WorkflowStatus.failed)
            (update_where
              (may_update e WorkflowStatus.completed)
              (λ x. record x { status = WorkflowStatus.completed })
              es)
    unfolding update_where
    unfailed-completed [] h = tt
    unfailed-completed (x ∷ es) h = (
      elim (Bool-cases (may_update e WorkflowStatus.completed x)) [
        | inl hit ↦
            rw hit
              (λ mine same. let no : WorkflowStatus.completed ≡ WorkflowStatus.failed = same in cc)
        | inr miss ↦ rw miss h.0
      ],
      unfailed-completed es h.1,
    )

    there-completed :
        (es : List WorkflowExecution)
        → has_execution e (
            update_where
              (may_update e WorkflowStatus.completed)
              (λ x. record x { status = WorkflowStatus.completed })
              es)
          ≡ has_execution e es
    unfolding update_where has_execution
    there-completed [] = refl
    there-completed (x ∷ es) = elim (Bool-cases (may_update e WorkflowStatus.completed x)) [
      | inl hit ↦ rw (hit, there-completed es) refl
      | inr miss ↦ rw (miss, there-completed es) refl
    ]

    pub completed-IsOpen :
        (es : List WorkflowExecution)
        → IsOpen e es
        → IsOpen e (
            update_where
              (may_update e WorkflowStatus.completed)
              (λ x. record x { status = WorkflowStatus.completed })
              es)
    completed-IsOpen es h = (there-completed es ∙ h.0, unfailed-completed es h.1)
