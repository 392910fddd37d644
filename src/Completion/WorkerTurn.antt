-- ===== src/Completion/WorkerTurn.antt =====
-- A turn of a main worker.
use go_tempo.Base.{
  ℕ, ◌+◌, ◌≤◌, ◌≡◌, ◌≢◌, ◌⊎◌, refl, sym, ap, subst, ◌∙◌, true, false, List, [], ◌∷◌, ◌++◌, String,
  some, inl, inr, All, All-append, All-implies, any,
}
use go_tempo.Domain.{TaskCompletedEvent}
use go_tempo.External.{External}
use go_tempo.World.{World}
use go_tempo.Kahn.{Ledger}
use go_tempo.Repository.Locks.{IsKeyed}
use go_tempo.Worker.Registry.{Context, TaskRegistry}
use go_tempo.Worker.Process.{process_next_task}
use go_tempo.System.{main_worker, here, next, work_main}
use go_tempo.System.Claims.{Reach-IsKeyed}
use go_tempo.Completion.Counts.{tainted-IsGood}
use go_tempo.Completion.Rows.{is_row, first_where-is_row, count_where-first}
use go_tempo.Completion.Track.{Plan, IsExpected, OnTrack, has_name, work_left}
use go_tempo.Completion.Work.{event_of, worked_rows, before, process_next_task-succeeds}
use go_tempo.Completion.Idle.{work-idle}
use go_tempo.Completion.Worked.{any-worked_rows, worked-AreTracked, worked-left}

snoc-nonempty :
    (events : List TaskCompletedEvent) (event : TaskCompletedEvent) → (events ++ event ∷ []) ≢ []
snoc-nonempty [] event e = cc
snoc-nonempty (x ∷ events) event e = cc

module _ (ext : External) (registry : TaskRegistry) (plan : Plan) where
  -- The workflow stays on its way, and there is less to do.
  abbrev pub Advances : Ledger → World → World → Type 0
  Advances ledger v w =
      (ended : Ledger) × OnTrack ext registry plan ended w
      × (work_left ext registry plan ended w + 1 ≤ work_left ext registry plan ledger v)

  module _ (me : String) (ctx : Context) where
    work-Advances :
        (ledger : Ledger) (w : World) (s : String) (later : List String)
        → OnTrack ext registry plan ledger (before ext registry me ctx w s later)
        → Advances ledger
            (before ext registry me ctx w s later)
            (process_next_task ext
              (main_worker registry me)
              ctx
              (before ext registry me ctx w s later)).1
    work-Advances ledger w s later track =
        let v = before ext registry me ctx w s later in
        let (id, parsed, there) = track.listed.0 in
        let (t, found, ours, mine, row_if) =
          first_where-is_row plan.execution_id id w.tasks track.keyed there track.rows in
        let row = row_if ours in
        let (handler, known, works) = row.planned.succeeds in
        let (output, succeeds, valid) = works ctx in
        let present = count_where-first id w.tasks t found in
        let unskipped : t.skip_hint ≡ false =
          row.counted.hint ∙ tainted-IsGood _ ledger track.good in
        let (ms, run) =
          process_next_task-succeeds ext registry me ctx w s later id t handler output parsed found
            (rw mine present) unskipped known succeeds valid in
        let ts' = worked_rows me output t w.tasks in
        let parsed_t : ext.uuid_parse s ≡ some t.id = rw mine parsed in
        let there_t : any (is_row plan.execution_id t.id) w.tasks ≡ true = rw mine there in
        let keeps = any-worked_rows ext registry plan me output t in
        let keyed = Reach-IsKeyed ext registry me "" (next here (work_main ctx v)) track.keyed in
        let shift =
          λ (id : ℕ). keeps (is_row plan.execution_id id) (λ u. refl) (λ u. refl) w.tasks in
        let expect : (events : List TaskCompletedEvent)
            → All (IsExpected ext registry plan w.tasks) events
            → All (IsExpected ext registry plan ts') events =
          All-implies _ (λ event known. (known.0, known.1, shift event.task_id ∙ known.2)) in
        let after : World = record w {
          tasks = ts';
          pending = later;
          completed = w.completed ++ event_of t ∷ [];
          outages = [];
          metrics = ms;
        } in
        let on : OnTrack ext registry plan ledger after = record {
          calm = refl;
          no_retries = track.no_retries;
          no_terminations = track.no_terminations;
          keyed = subst (λ (x : World). IsKeyed x.tasks) (ap (λ p. p.1) run) keyed;
          rows =
              worked-AreTracked ext registry plan me output t ledger s later w.completed parsed_t
                w.tasks track.rows;
          names = λ r k.
              keeps (has_name plan.execution_id r) (λ u. refl) (λ u. refl) w.tasks
              ∙ track.names r k;
          good = track.good;
          once = track.once;
          listed =
              All-implies _ (λ x listed. (listed.0, listed.1, shift listed.0 ∙ listed.2)) later
                track.listed.1;
          expected = expect _ (
              All-append _ w.completed (event_of t ∷ []) track.expected
                ((ours, sym row.planned.name, there_t), tt));
          open_status = track.open_status;
          closing = λ none. absurd (snoc-nonempty w.completed (event_of t) none);
        } in
        let less =
          worked-left ext registry plan me output t ledger s later w.completed parsed_t w.tasks
            track.rows there_t in
        subst (λ x. Advances ledger v x) (sym (ap (λ p. p.1) run)) (ledger, on, less)

    -- A turn does something, or the list is empty and nothing changes.
    pub work_turn :
        (ledger : Ledger) (w : World)
        → OnTrack ext registry plan ledger w
        → Advances ledger w (process_next_task ext (main_worker registry me) ctx w).1
          ⊎ (w.pending ≡ []) × ((process_next_task ext (main_worker registry me) ctx w).1 ≡ w)
    work_turn ledger w track = go w.pending refl track.calm
      where
        go :
            (l : List String)
            → w.pending ≡ l
            → w.outages ≡ []
            → Advances ledger w (process_next_task ext (main_worker registry me) ctx w).1
              ⊎ (w.pending ≡ []) × ((process_next_task ext (main_worker registry me) ctx w).1 ≡ w)
        go [] none calm = inr (none, work-idle ext registry me ctx w none calm)
        go (s ∷ later) some_listed calm =
            let same : before ext registry me ctx w s later ≡ w =
              ap (λ p. record w { pending = p; outages = [] }) (sym some_listed)
              ∙ ap (λ o. record w { outages = o }) (sym calm) in
            inl (
              subst
                (λ x.
                  OnTrack ext registry plan ledger x
                  → Advances ledger x (process_next_task ext (main_worker registry me) ctx x).1)
                same (work-Advances ledger w s later) track)
