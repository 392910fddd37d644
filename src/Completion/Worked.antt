-- ===== src/Completion/Worked.antt =====
-- The rows of a workflow when a main worker runs one of its tasks.
use go_tempo.Base.{
  ◌+◌, ◌≤◌, ◌<◌, ◌≡◌, refl, ap, ◌∙◌, Bool, true, false, List, [], ◌∷◌, ◌++◌, String, some, arith,
  Bool-cases, inl, inr, All-implies, any, ◌==◌, ==_iff,
}
use go_tempo.Domain.{Task, TaskCompletedEvent}
use go_tempo.External.{External}
use go_tempo.Kahn.{Ledger}
use go_tempo.Repository.Rows.{update_where, has_version}
use go_tempo.Worker.Registry.{TaskRegistry}
use go_tempo.System.Tokens.{one_if, listed, is_named}
use go_tempo.Completion.Rows.{All-update_where, any-update_where, is_row, sum, sum-update_where}
use go_tempo.Completion.Track.{Plan, AreTracked, left}
use go_tempo.Completion.Work.{claimed_as, completed_as, event_of, worked_rows}
use go_tempo.Completion.Written.{
  claimed-IsTracked, completed-IsTracked, claimed-left, completed-left,
}

module _ (ext : External) (registry : TaskRegistry) (plan : Plan) (me output : String)
    (t : Task) where
  -- A test that a worker's writes do not touch.
  pub any-worked_rows :
      (q : Task → Bool)
      → ((u : Task) → q (claimed_as me t u) ≡ q u)
      → ((u : Task) → q (completed_as output u) ≡ q u)
      → (ts : List Task) → any q (worked_rows me output t ts) ≡ any q ts
  any-worked_rows q claims ends ts =
      any-update_where q (λ u. u.id == t.id) (completed_as output)
        (λ u. elim (Bool-cases (u.id == t.id)) [
          | inl hit ↦ rw hit (ends u)
          | inr miss ↦ rw miss refl
        ])
        (update_where (has_version t.id t.version) (claimed_as me t) ts)
      ∙ any-update_where q (has_version t.id t.version) (claimed_as me t)
          (λ u. elim (Bool-cases (has_version t.id t.version u)) [
            | inl hit ↦ rw hit (claims u)
            | inr miss ↦ rw miss refl
          ])
          ts

  module _ (ledger : Ledger) (s : String) (later : List String) (events : List TaskCompletedEvent)
      (parsed : ext.uuid_parse s ≡ some t.id) (ts : List Task)
      (rows : AreTracked ext registry plan ledger (s ∷ later) events ts) where
    queued_now : 0 < listed ext t.id (s ∷ later)
    queued_now =
        let read : one_if (is_named t.id (ext.uuid_parse s)) ≡ 1 =
          rw parsed (ap one_if ((==_iff t.id t.id).1 refl)) in
        omega (arith, read)

    claimed-AreTracked :
        AreTracked ext registry plan ledger
          (s ∷ later)
          events
          (update_where (has_version t.id t.version) (claimed_as me t) ts)
    claimed-AreTracked =
        All-update_where _ (has_version t.id t.version) (claimed_as me t)
          (claimed-IsTracked ext registry plan me output t ledger (s ∷ later) events queued_now) ts
          rows

    pub worked-AreTracked :
        AreTracked ext registry plan ledger later
          (events ++ event_of t ∷ [])
          (worked_rows me output t ts)
    worked-AreTracked =
        All-update_where _ (λ u. u.id == t.id) (completed_as output)
          (completed-IsTracked ext registry plan me output t ledger s later events parsed)
          (update_where (has_version t.id t.version) (claimed_as me t) ts) claimed-AreTracked

    pub worked-left :
        any (is_row plan.execution_id t.id) ts ≡ true
        → sum (left ext registry plan ledger) (worked_rows me output t ts) + 1
          ≤ sum (left ext registry plan ledger) ts
    worked-left found =
        let middle = update_where (has_version t.id t.version) (claimed_as me t) ts in
        let l = left ext registry plan ledger in
        let first =
          sum-update_where l l (λ u. false) (has_version t.id t.version) (claimed_as me t) ts
            (All-implies _
              (claimed-left ext registry plan me output t ledger (s ∷ later) events queued_now) ts
              rows) in
        let second =
          sum-update_where l l (is_row plan.execution_id t.id) (λ u. u.id == t.id)
            (completed_as output) middle
            (All-implies _
              (completed-left ext registry plan me output t ledger (s ∷ later) events queued_now)
              middle claimed-AreTracked) in
        let same : any (is_row plan.execution_id t.id) middle ≡ true =
          any-update_where (is_row plan.execution_id t.id) (has_version t.id t.version)
            (claimed_as me t)
            (λ u. elim (Bool-cases (has_version t.id t.version u)) [
              | inl hit ↦ rw hit refl
              | inr miss ↦ rw miss refl
            ])
            ts
          ∙ found in
        omega (arith, first, second, ap one_if same)
