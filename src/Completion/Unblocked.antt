-- ===== src/Completion/Unblocked.antt =====
-- What the UPDATE of the coordinator leaves when the end of a task is received.
use go_tempo.Base.{
  ℕ, ◌+◌, ◌≤◌, ◌≡◌, refl, sym, ap, subst, ◌∙◌, Bool, false, List, [], ◌∷◌, ◌++◌, map, String, arith,
  Bool-cases, inl, inr, is_zero, All-implies, All-zip, any, ◌==◌, ==_iff,
}
use go_tempo.Domain.{Task, TaskCompletedEvent}
use go_tempo.External.{External, Documented, IsPlain}
use go_tempo.World.{World, ok}
use go_tempo.Kahn.{Ledger, ended, IsOnce}
use go_tempo.Kahn.Refinement.{Counted, completes_deps, now_ready, end_query-refines}
use go_tempo.Repository.Rows.{update_where}
use go_tempo.Repository.Dag.{decrement_row, depends_on, decrement_and_get_ready_tasks}
use go_tempo.Worker.Registry.{TaskRegistry}
use go_tempo.System.Tokens.{one_if, occurs}
use go_tempo.Completion.Counts.{one_if_le, one_if-zero}
use go_tempo.Completion.Rows.{
  All-update_where, any-update_where, is_row, first_where-is_row, sum-update_where,
}
use go_tempo.Completion.Track.{Plan, IsTracked, AreTracked, OnTrack, has_name, left, work_left}
use go_tempo.Completion.Receive.{ready, query-eq}
use go_tempo.Completion.Freed.{now_ready-once}
use go_tempo.Completion.Ended.{
  row-IsAwaiting, unblocked-IsAwaiting, awaiting-IsTracked, unblocked-left,
}

module _ (ext : External) (doc : Documented ext) (registry : TaskRegistry) (plan : Plan)
    (ledger : Ledger) (task_id : ℕ) (ref_id : String) (later : List TaskCompletedEvent)
    (w : World) where
  abbrev pub event : TaskCompletedEvent
  event = record { execution_id = plan.execution_id; task_id = task_id; ref_id = ref_id }

  abbrev pub receiving : World
  receiving = record w { completed = event ∷ later; outages = [] }

  abbrev pub ledger' : Ledger
  ledger' = (ref_id, false) ∷ ledger

  abbrev pub e : ℕ
  e = plan.execution_id

  -- The event is that of a row, whose end is new.
  abbrev pub IsNews : Type 0
  IsNews =
      (plan.number ref_id ≡ task_id)
      × (ref_id ≡ plan.name task_id)
      × IsPlain ref_id
      × (ended ref_id ledger ≡ false)

  pub news : OnTrack ext registry plan ledger receiving → IsNews
  news track =
      let (_, named, there) = track.expected.0 in
      let (t, found, ours, mine, row_if) =
        first_where-is_row e task_id w.tasks track.keyed there track.rows in
      let row = row_if ours in
      let same : t.ref_id ≡ ref_id = sym row.planned.name ∙ ap plan.name mine ∙ sym named in
      let total = row.once in
      let self : one_if (task_id == t.id) ≡ 1 = ap one_if ((==_iff task_id t.id).1 (sym mine)) in
      let unended : ended t.ref_id ledger ≡ false =
        one_if-zero _ (omega (arith, total, self, one_if_le (is_zero t.in_degree))) in
      (
        ap plan.number (sym same) ∙ row.planned.number ∙ mine,
        named,
        subst IsPlain same row.planned.plain,
        subst (λ r. ended r ledger ≡ false) same unended,
      )

  abbrev pub rows' : List Task
  rows' = update_where (depends_on ext e ref_id) decrement_row w.tasks

  abbrev pub freed : List ℕ
  freed = now_ready e ref_id ledger' w.tasks

  abbrev pub pending' : List String
  pending' = w.pending ++ map ext.uuid_string freed

  module _ (track : OnTrack ext registry plan ledger receiving) where
    abbrev numbered : plan.number ref_id ≡ task_id
    numbered = (news track).0

    pub once' : IsOnce ledger'
    once' = ((news track).3, track.once)

    refined :
        ((decrement_and_get_ready_tasks ext e ref_id
            (record w { completed = later; outages = [] })).0
          ≡ ok freed)
        × Counted e ledger'
            (decrement_and_get_ready_tasks ext e ref_id
              (record w { completed = later; outages = [] })).1.tasks
    refined =
        end_query-refines ext doc e ref_id ledger (news track).2
          (record w { completed = later; outages = [] })
          (All-implies _ (λ u h mine. IsTracked.counted (h mine)) w.tasks track.rows) refl false
          once'

    pub freed_eq : ready ext event (record w { completed = later }) ≡ freed
    freed_eq =
        let (ms, query) = query-eq ext event (record w { completed = later }) doc (news track).2 in
        let both : ok (ready ext event (record w { completed = later })) ≡ ok freed =
          sym (ap (λ p. p.0) query) ∙ refined.0 in
        cc

    counted' : Counted e ledger' rows'
    counted' =
        let (ms, query) = query-eq ext event (record w { completed = later }) doc (news track).2 in
        subst (Counted e ledger') (ap (λ p. p.1.tasks) query) refined.1

    pub tracked' : AreTracked ext registry plan ledger' pending' later rows'
    tracked' =
        let (number, named, plain, unended) = news track in
        let dep = depends_on ext e ref_id in
        let awaiting =
          All-update_where
            {P = λ u.
              (u.execution_id ≡ e → IsTracked ext registry plan ledger w.pending (event ∷ later) u)
              × (u.execution_id ≡ e → occurs u.id freed ≡ one_if (completes_deps ref_id ledger' u))}
            _ dep decrement_row
            (λ u both.
              unblocked-IsAwaiting ext doc registry plan ledger w.pending later event number named
                unended track.once (dep u) w.tasks u both.0
                (row-IsAwaiting ext doc registry plan ledger w.pending later event number named
                  unended track.once w.tasks u both.0 both.1))
            w.tasks
            (All-zip _ (λ u h k. (h, k)) w.tasks track.rows
              (now_ready-once e ref_id ledger' w.tasks track.keyed)) in
        All-zip _
          (λ u.
            awaiting-IsTracked ext doc registry plan ledger w.pending later event number named
              unended track.once w.tasks u once')
          rows' awaiting counted'

    pub less_left :
        work_left ext registry plan ledger' (record w { tasks = rows' }) + 1
        ≤ work_left ext registry plan ledger w
    less_left =
        let (number, named, plain, unended) = news track in
        let there = (track.expected.0).2 in
        let dep = depends_on ext e ref_id in
        let less =
          sum-update_where (left ext registry plan ledger) (left ext registry plan ledger')
            (is_row e task_id) dep decrement_row w.tasks
            (All-implies _
              (λ u h.
                unblocked-left ext doc registry plan ledger w.pending later event number named
                  unended track.once (dep u) u h)
              w.tasks track.rows) in
        omega (arith, less, ap one_if there)

    -- A test that the UPDATE does not touch.
    keeps :
        (q : Task → Bool) → ((u : Task) → q (decrement_row u) ≡ q u) → any q rows' ≡ any q w.tasks
    keeps q same =
        any-update_where q (depends_on ext e ref_id) decrement_row
          (λ u. elim (Bool-cases (depends_on ext e ref_id u)) [
            | inl hit ↦ rw hit (same u)
            | inr miss ↦ rw miss refl
          ])
          w.tasks

    pub shift : (id : ℕ) → any (is_row e id) rows' ≡ any (is_row e id) w.tasks
    unfolding decrement_row
    shift id = keeps (is_row e id) (λ u. refl)

    pub named_rows : (r : String) → any (has_name e r) rows' ≡ any (has_name e r) w.tasks
    unfolding decrement_row
    named_rows r = keeps (has_name e r) (λ u. refl)
