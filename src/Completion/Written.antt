-- ===== src/Completion/Written.antt =====
-- A row of a workflow when a main worker claims its task, and when it ends it.
use go_tempo.Base.{
  ℕ, ◌+◌, ◌≤◌, ◌<◌, ◌≡◌, refl, sym, ap, false, List, [], ◌∷◌, ◌++◌, String, Option, some, arith,
  Bool-cases, inl, inr, is_zero, ◌==◌, ==_iff, if◌then◌else◌,
}
use go_tempo.Kahn.Refinement.{IsCounted}
use go_tempo.Domain.{Json, Task, TaskStatus, TaskCompletedEvent, is_completed}
use go_tempo.External.{External}
use go_tempo.Kahn.{Ledger}
use go_tempo.Repository.Rows.{has_version}
use go_tempo.Worker.Registry.{TaskRegistry}
use go_tempo.System.Tokens.{one_if, listed, is_named}
use go_tempo.Completion.Counts.{one_if_le, one_if-zero, and_false, reported-append}
use go_tempo.Completion.Rows.{is_row}
use go_tempo.Completion.Track.{Plan, IsPlanned, IsTracked, left}
use go_tempo.Completion.Work.{claimed_as, completed_as, event_of}

module _ (ext : External) (registry : TaskRegistry) (plan : Plan) (me output : String)
    (t : Task) where
  -- The row after the claim.
  abbrev pub once_claimed : Task → Task
  once_claimed u = if has_version t.id t.version u then claimed_as me t u else u

  abbrev pub once_completed : Task → Task
  once_completed u = if u.id == t.id then completed_as output u else u

  -- What a row keeps when a worker writes to it.
  abbrev written : TaskStatus → Option String → ℕ → Json → Task → Task
  written status worker version json u = record u {
    status = status;
    worker_id = worker;
    version = version;
    output = json;
  }

  written-IsPlanned :
      (a : TaskStatus) (b : Option String) (c : ℕ) (d : Json) (u : Task)
      → IsPlanned ext registry plan u
      → IsPlanned ext registry plan (written a b c d u)
  written-IsPlanned a b c d u p = record {
    number = p.number;
    name = p.name;
    plain = p.plain;
    deps = p.deps;
    succeeds = p.succeeds;
  }

  written-IsCounted :
      (ledger : Ledger) (a : TaskStatus) (b : Option String) (c : ℕ) (d : Json) (u : Task)
      → IsCounted ledger u
      → IsCounted ledger (written a b c d u)
  written-IsCounted ledger a b c d u k = record {
    array = k.array;
    distinct = k.distinct;
    degree = k.degree;
    hint = k.hint;
  }

  pub claimed-IsTracked :
      (ledger : Ledger) (pending : List String) (events : List TaskCompletedEvent)
      → 0 < listed ext t.id pending
      → (u : Task)
      → (u.execution_id ≡ plan.execution_id → IsTracked ext registry plan ledger pending events u)
      → (once_claimed u).execution_id ≡ plan.execution_id
      → IsTracked ext registry plan ledger pending events (once_claimed u)
  unfolding is_completed
  claimed-IsTracked ledger pending events queued u h =
      elim (Bool-cases (has_version t.id t.version u)) [
        | inl hit ↦ rw hit (λ e.
            let row = h e in
            let same : u.id ≡ t.id = ground (arith, hit) in
            let waits : 0 < listed ext u.id pending = rw same queued in
            let once = row.once in
            let done = row.done in
            record {
              planned = written-IsPlanned _ _ _ _ u row.planned;
              counted = written-IsCounted ledger _ _ _ _ u row.counted;
              once = row.once;
              done = omega (arith, waits, once, one_if_le (is_zero u.in_degree));
            })
        | inr miss ↦ rw miss h
      ]

  pub completed-IsTracked :
      (ledger : Ledger) (s : String) (later : List String) (events : List TaskCompletedEvent)
      → ext.uuid_parse s ≡ some t.id
      → (u : Task)
      → (u.execution_id ≡ plan.execution_id
          → IsTracked ext registry plan ledger (s ∷ later) events u)
      → (once_completed u).execution_id ≡ plan.execution_id
      → IsTracked ext registry plan ledger later (events ++ event_of t ∷ []) (once_completed u)
  unfolding is_completed
  completed-IsTracked ledger s later events parsed u h = elim (Bool-cases (u.id == t.id)) [
    | inl hit ↦ rw hit (λ e.
        let row = h e in
        let same : t.id ≡ u.id = sym ((==_iff u.id t.id).0 hit) in
        let once = row.once in
        let done = row.done in
        let here : one_if (t.id == u.id) ≡ 1 = ap one_if ((==_iff t.id u.id).1 same) in
        let read : one_if (is_named u.id (ext.uuid_parse s)) ≡ 1 =
          rw (parsed, same) (ap one_if ((==_iff u.id u.id).1 refl)) in
        let more = reported-append u.id events (event_of t) in
        record {
          planned = written-IsPlanned _ _ _ _ u row.planned;
          counted = written-IsCounted ledger _ _ _ _ u row.counted;
          once = omega (arith, once, read, more, here);
          done = omega (arith, once, read, more, here, one_if_le (is_zero u.in_degree));
        })
    | inr miss ↦ rw miss (λ e.
        let row = h e in
        let once = row.once in
        let done = row.done in
        let other : (t.id == u.id) ≡ false = ground arith in
        let away : one_if (t.id == u.id) ≡ 0 = ap one_if other in
        let read : one_if (is_named u.id (ext.uuid_parse s)) ≡ 0 = rw parsed away in
        let more = reported-append u.id events (event_of t) in
        record {
          planned = row.planned;
          counted = row.counted;
          once = omega (arith, once, read, more, away);
          done = omega (arith, done, more, away);
        })
  ]

  pub claimed-left :
      (ledger : Ledger) (pending : List String) (events : List TaskCompletedEvent)
      → 0 < listed ext t.id pending
      → (u : Task)
      → (u.execution_id ≡ plan.execution_id → IsTracked ext registry plan ledger pending events u)
      → left ext registry plan ledger (once_claimed u) + one_if false
        ≤ left ext registry plan ledger u
  unfolding is_completed
  claimed-left ledger pending events queued u h = elim (Bool-cases (has_version t.id t.version u)) [
    | inl hit ↦ elim (Bool-cases (u.execution_id == plan.execution_id)) [
      | inl ours ↦
          let row = h ((==_iff u.execution_id plan.execution_id).0 ours) in
          let same : u.id ≡ t.id = ground (arith, hit) in
          let waits : 0 < listed ext u.id pending = rw same queued in
          let once = row.once in
          let done = row.done in
          let fresh : is_completed u.status ≡ false =
            one_if-zero _ (omega (arith, waits, once, done, one_if_le (is_zero u.in_degree))) in
          rw (hit, ours, fresh) (omega arith)
      | inr theirs ↦ rw (hit, theirs) (omega arith)
    ]
    | inr miss ↦ rw miss (omega arith)
  ]

  pub completed-left :
      (ledger : Ledger) (pending : List String) (events : List TaskCompletedEvent)
      → 0 < listed ext t.id pending
      → (u : Task)
      → (u.execution_id ≡ plan.execution_id → IsTracked ext registry plan ledger pending events u)
      → left ext registry plan ledger (once_completed u) + one_if (is_row plan.execution_id t.id u)
        ≤ left ext registry plan ledger u
  unfolding is_completed
  completed-left ledger pending events queued u h = elim (Bool-cases (u.id == t.id)) [
    | inl hit ↦ elim (Bool-cases (u.execution_id == plan.execution_id)) [
      | inl ours ↦
          let row = h ((==_iff u.execution_id plan.execution_id).0 ours) in
          let same : u.id ≡ t.id = (==_iff u.id t.id).0 hit in
          let waits : 0 < listed ext u.id pending = rw same queued in
          let once = row.once in
          let done = row.done in
          let fresh : is_completed u.status ≡ false =
            one_if-zero _ (omega (arith, waits, once, done, one_if_le (is_zero u.in_degree))) in
          rw (hit, ours, fresh) (omega arith)
      | inr theirs ↦ rw (hit, theirs) (omega arith)
    ]
    | inr miss ↦ rw (miss, and_false (u.execution_id == plan.execution_id)) (omega arith)
  ]
