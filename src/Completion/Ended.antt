-- ===== src/Completion/Ended.antt =====
-- The rows of a workflow when the end of one of its tasks is received.
use go_tempo.Base.{
  zero, suc, ℤ, pos, negsuc, pred_ℤ, ◌+◌, ◌≤◌, ◌≡◌, refl, sym, ap, ◌∙◌, Bool, true, false, List,
  ◌∷◌, ◌++◌, map, String, str_eq, eq_iff, arith, Bool-cases, inl, inr, is_zero, is_zero-sub_ℕ,
  length, ◌==◌, ==_iff, if◌then◌else◌,
}
use go_tempo.Domain.{is_completed, TaskStatus, Task, TaskCompletedEvent}
use go_tempo.External.{External, Documented}
use go_tempo.Kahn.{Ledger, ended, all_ended, hits, IsOnce}
use go_tempo.Kahn.Counting.{hits-all_ended}
use go_tempo.Kahn.Refinement.{IsCounted, deps_of, now_ready}
use go_tempo.Repository.Dag.{decrement_row}
use go_tempo.Worker.Registry.{TaskRegistry}
use go_tempo.System.Tokens.{one_if, listed, listed-append}
use go_tempo.Completion.Counts.{
  one_if-one, one_if-not, ==_comm, reported, listed-map, all_ended-cons,
}
use go_tempo.Completion.Rows.{is_row}
use go_tempo.Completion.Freed.{IsReadyOnce}
use go_tempo.Completion.Track.{Plan, IsPlanned, IsTracked, left}

-- A row is at 0 exactly if its dependencies have ended.
pub counted-is_zero :
    (ledger : Ledger) (t : Task)
    → IsOnce ledger
    → IsCounted ledger t
    → is_zero t.in_degree ≡ all_ended (deps_of t.dependencies) ledger
counted-is_zero ledger t once row =
    let ds = deps_of t.dependencies in
    ap is_zero row.degree
    ∙ is_zero-sub_ℕ (length ds) (hits ds ledger)
    ∙ hits-all_ended ds ledger row.distinct once

-- The UPDATE turns only a row to QUEUED whose counter was 1.
status-kept :
    (d : ℤ) (status : TaskStatus)
    → (is_completed status ≡ true → is_zero d ≡ true)
    → is_completed (if is_zero (pred_ℤ d) then TaskStatus.queued else status) ≡ is_completed status
unfolding is_completed
status-kept (pos zero) status h = refl
status-kept (pos (suc zero)) status h = elim (Bool-cases (is_completed status)) [
  | inl done ↦ absurd (let no : false ≡ true = h done in cc)
  | inr not_done ↦ sym not_done
]
status-kept (pos (suc (suc n))) status h = refl
status-kept (negsuc n) status h = refl

module _ (ext : External) (doc : Documented ext) (registry : TaskRegistry) (plan : Plan)
    (ledger : Ledger) (pending : List String) (later : List TaskCompletedEvent)
    (event : TaskCompletedEvent) (numbered : plan.number event.ref_id ≡ event.task_id)
    (named : event.ref_id ≡ plan.name event.task_id) (open_task : ended event.ref_id ledger ≡ false)
    (once : IsOnce ledger) where
  abbrev ledger' : Ledger
  ledger' = (event.ref_id, false) ∷ ledger

  abbrev IsInTable : Task → Type 0
  IsInTable u =
      u.execution_id ≡ plan.execution_id
      → IsTracked ext registry plan ledger pending (event ∷ later) u

  -- The event leaves the channel, and the task enters the ledger.
  exchange :
      (u : Task)
      → IsPlanned ext registry plan u
      → one_if (event.task_id == u.id) + one_if (ended u.ref_id ledger)
        ≡ one_if (ended u.ref_id ledger')
  exchange u p = elim (Bool-cases (event.task_id == u.id)) [
    | inl hit ↦
        let same : event.task_id ≡ u.id = (==_iff event.task_id u.id).0 hit in
        let name : u.ref_id ≡ event.ref_id = sym p.name ∙ ap plan.name (sym same) ∙ sym named in
        rw (hit, name, open_task, (eq_iff event.ref_id event.ref_id).1 refl) (omega arith)
    | inr miss ↦
        let apart : str_eq u.ref_id event.ref_id ≡ false =
          elim (Bool-cases (str_eq u.ref_id event.ref_id)) [
            | inl same ↦
                let number : u.id ≡ event.task_id =
                  sym p.number
                  ∙ ap plan.number ((eq_iff u.ref_id event.ref_id).0 same)
                  ∙ numbered in
                absurd (ground (arith, miss, number))
            | inr other ↦ other
          ] in
        rw (miss, apart) (omega arith)
  ]

  -- What is known of a row after the UPDATE and the pushes, but for its counter.
  abbrev IsAwaiting : List Task → Task → Type 0
  IsAwaiting ts u =
      u.execution_id ≡ plan.execution_id
      → IsPlanned ext registry plan u
        × (listed ext u.id (
                pending
                ++ map ext.uuid_string (now_ready plan.execution_id event.ref_id ledger' ts))
              + reported u.id later
              + one_if (ended u.ref_id ledger')
            ≡ one_if (all_ended (deps_of u.dependencies) ledger'))
        × (reported u.id later + one_if (ended u.ref_id ledger') ≡ one_if (is_completed u.status))

  pub row-IsAwaiting :
      (ts : List Task) (u : Task)
      → IsInTable u
      → IsReadyOnce plan.execution_id event.ref_id ledger' ts u
      → IsAwaiting ts u
  row-IsAwaiting ts u h ready mine =
      let row = h mine in
      let ids = now_ready plan.execution_id event.ref_id ledger' ts in
      let swap = exchange u row.planned in
      let split = listed-append ext u.id pending (map ext.uuid_string ids) in
      let pushed = listed-map ext doc u.id ids in
      let grows = all_ended-cons event.ref_id (deps_of u.dependencies) ledger open_task in
      let before = row.once ∙ ap one_if (counted-is_zero ledger u once row.counted) in
      let done = row.done in
      (
        row.planned,
        omega (arith, swap, split, pushed, grows, before, ready mine),
        omega (arith, swap, done),
      )

  abbrev unblocked_row : Bool → Task → Task
  unblocked_row hit u = if hit then decrement_row u else u

  decremented-is_completed :
      (u : Task)
      → IsInTable u
      → u.execution_id ≡ plan.execution_id
      → is_completed (decrement_row u).status ≡ is_completed u.status
  unfolding decrement_row
  decremented-is_completed u h mine =
      let row = h mine in
      let total = row.once in
      let done = row.done in
      status-kept u.in_degree u.status
        (λ ended_status. one_if-one _ (omega (arith, total, done, ap one_if ended_status)))

  pub unblocked-IsAwaiting :
      (hit : Bool) (ts : List Task) (u : Task)
      → IsInTable u
      → IsAwaiting ts u
      → IsAwaiting ts (unblocked_row hit u)
  unfolding decrement_row
  unblocked-IsAwaiting true ts u tracks h = λ e.
      let (planned, count, done) = h e in
      (
        record {
          number = planned.number;
          name = planned.name;
          plain = planned.plain;
          deps = planned.deps;
          succeeds = planned.succeeds;
        },
        count,
        done ∙ ap one_if (sym (decremented-is_completed u tracks e)),
      )
  unblocked-IsAwaiting false ts u tracks h = h

  pub awaiting-IsTracked :
      (ts : List Task) (u : Task)
      → IsOnce ledger'
      → IsAwaiting ts u
      → (u.execution_id ≡ plan.execution_id → IsCounted ledger' u)
      → u.execution_id ≡ plan.execution_id
      → IsTracked ext registry plan ledger'
          (pending ++ map ext.uuid_string (now_ready plan.execution_id event.ref_id ledger' ts))
          later
          u
  awaiting-IsTracked ts u once' h counted mine =
      let (planned, count, done) = h mine in
      record {
        planned = planned;
        counted = counted mine;
        once = count ∙ ap one_if (sym (counted-is_zero ledger' u once' (counted mine)));
        done = done;
      }

  row-left :
      (u : Task)
      → IsInTable u
      → left ext registry plan ledger' u + one_if (is_row plan.execution_id event.task_id u)
        ≤ left ext registry plan ledger u
  row-left u h = elim (Bool-cases (u.execution_id == plan.execution_id)) [
    | inl ours ↦
        let row = h ((==_iff u.execution_id plan.execution_id).0 ours) in
        let swap = exchange u row.planned in
        let turned = ap one_if (==_comm event.task_id u.id) in
        rw ours (
          omega (
            arith,
            swap,
            turned,
            one_if-not (ended u.ref_id ledger),
            one_if-not (ended u.ref_id ledger'),
          ))
    | inr theirs ↦ rw theirs (omega arith)
  ]

  pub unblocked-left :
      (hit : Bool) (u : Task)
      → IsInTable u
      → left ext registry plan ledger' (unblocked_row hit u)
          + one_if (is_row plan.execution_id event.task_id u)
        ≤ left ext registry plan ledger u
  unfolding decrement_row
  unblocked-left true u h = elim (Bool-cases (u.execution_id == plan.execution_id)) [
    | inl ours ↦
        let same =
          decremented-is_completed u h ((==_iff u.execution_id plan.execution_id).0 ours) in
        let less = row-left u h in rw (ours, same) (rw ours at less)
    | inr theirs ↦ let less = row-left u h in rw theirs (rw theirs at less)
  ]
  unblocked-left false u h = row-left u h
