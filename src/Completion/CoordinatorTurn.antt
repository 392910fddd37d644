-- ===== src/Completion/CoordinatorTurn.antt =====
-- A turn of the coordinator.
use go_tempo.Base.{
  ℕ, ◌≡◌, ◌⊎◌, refl, sym, ap, subst, ◌∙◌, List, [], ◌∷◌, ◌++◌, map, String, null, arith, Bool-cases,
  inl, inr, All, ◌==◌, if◌then◌else◌,
}
use go_tempo.Domain.{Task, TaskCompletedEvent}
use go_tempo.External.{External, Documented}
use go_tempo.World.{World, ok, pure}
use go_tempo.Kahn.{Ledger}
use go_tempo.Repository.Rows.{count_where}
use go_tempo.Repository.Dag.{is_unfinished}
use go_tempo.Repository.Locks.{IsKeyed}
use go_tempo.Coordinator.{check_if_workflow_finished, coordinate_completed}
use go_tempo.Coordinator.Finish.{none_unfinished, finish_all}
use go_tempo.Worker.Registry.{TaskRegistry}
use go_tempo.System.{here, next, beside, complete}
use go_tempo.System.Claims.{Reach-IsKeyed}
use go_tempo.Completion.Track.{Plan, IsExpected, OnTrack}
use go_tempo.Completion.Receive.{
  ready, unblocked, finish, check-done, check-left, coordinate_completed-eq,
}
use go_tempo.Completion.Idle.{coordinate-idle}
use go_tempo.Completion.WorkerTurn.{Advances}
use go_tempo.Completion.Unblocked
use go_tempo.Completion.Unblocked.{receiving}
use go_tempo.Completion.After

module _ (ext : External) (doc : Documented ext) (registry : TaskRegistry) (plan : Plan)
    (ledger : Ledger) (task_id : ℕ) (ref_id : String) (later : List TaskCompletedEvent)
    (w : World) where
  abbrev event : TaskCompletedEvent
  event = Unblocked.event ext doc registry plan ledger task_id ref_id later w

  abbrev ledger' : Ledger
  ledger' = Unblocked.ledger' ext doc registry plan ledger task_id ref_id later w

  abbrev e : ℕ
  e = Unblocked.e ext doc registry plan ledger task_id ref_id later w

  abbrev rows' : List Task
  rows' = Unblocked.rows' ext doc registry plan ledger task_id ref_id later w

  abbrev freed : List ℕ
  freed = Unblocked.freed ext doc registry plan ledger task_id ref_id later w

  abbrev pending' : List String
  pending' = Unblocked.pending' ext doc registry plan ledger task_id ref_id later w

  abbrev now : World
  now = receiving ext doc registry plan ledger task_id ref_id later w

  module _ (track : OnTrack ext registry plan ledger now) where
    coordinate-Advances : Advances ext registry plan ledger now (coordinate_completed ext now).1
    unfolding pure
    coordinate-Advances =
        let w1 = record w { completed = later } in
        let plain = (Unblocked.news ext doc registry plan ledger task_id ref_id later w track).2 in
        let (ms, run) = coordinate_completed-eq ext doc event later w plain in
        let u = unblocked ext event w1 ms in
        let list : u.pending ≡ pending' =
          ap (λ ids. w.pending ++ map ext.uuid_string ids)
            (Unblocked.freed_eq ext doc registry plan ledger task_id ref_id later w track) in
        let keyed =
          Reach-IsKeyed ext registry "" "" (next here (beside (complete now))) track.keyed in
        let settle : (v : World)
            → (coordinate_completed ext now).1 ≡ v
            → (IsKeyed v.tasks → Advances ext registry plan ledger now v)
            → Advances ext registry plan ledger now (coordinate_completed ext now).1 =
          λ v same follow.
            subst (Advances ext registry plan ledger now) (sym same)
              (follow (subst (λ (x : World). IsKeyed x.tasks) same keyed)) in
        elim (Bool-cases (null (ready ext event w1))) [
          | inl leaf ↦
              let checks : finish ext event w1 u ≡ check_if_workflow_finished e u =
                ap (λ b. (if b then check_if_workflow_finished e else pure tt) u) leaf in
              elim (Bool-cases (count_where (is_unfinished e) rows' == 0)) [
                | inl done ↦
                    let (m2, checked) = check-done e u done in
                    settle _ (ap (λ p. p.1) (run ∙ checks ∙ checked)) (λ k.
                      (After.after ext doc registry plan ledger task_id ref_id later w track) _ refl
                        track.no_retries track.no_terminations refl list refl k
                        ((After.completed-IsOpen ext doc registry plan ledger task_id ref_id later w
                            track)
                          w.executions track.open_status)
                        (λ none all. finish_all e w.executions))
                | inr more ↦ settle _ (ap (λ p. p.1) (run ∙ checks ∙ check-left e u more)) (λ k.
                    (After.after ext doc registry plan ledger task_id ref_id later w track) _ refl
                      track.no_retries track.no_terminations refl list refl k track.open_status
                      (λ none all. absurd (ground (arith, more, none_unfinished e rows' all))))
              ]
          | inr parent ↦
              let stays : finish ext event w1 u ≡ (ok tt, u) =
                ap (λ b. (if b then check_if_workflow_finished e else pure tt) u) parent in
              settle _ (ap (λ p. p.1) (run ∙ stays)) (λ k.
                (After.after ext doc registry plan ledger task_id ref_id later w track) _ refl
                  track.no_retries track.no_terminations refl list refl k track.open_status
                  (λ none all. absurd (
                    (After.unblocked-open ext doc registry plan ledger task_id ref_id later w track)
                      k
                      (ap null (
                          sym (
                            Unblocked.freed_eq ext doc registry plan ledger task_id ref_id later w
                              track))
                        ∙ parent)
                      all)))
        ]

module _ (ext : External) (doc : Documented ext) (registry : TaskRegistry) (plan : Plan) where
  -- A turn does something, or the channel is empty and nothing changes.
  pub coordinate_turn :
      (ledger : Ledger) (w : World)
      → OnTrack ext registry plan ledger w
      → Advances ext registry plan ledger w (coordinate_completed ext w).1
        ⊎ (w.completed ≡ []) × ((coordinate_completed ext w).1 ≡ w)
  coordinate_turn ledger w track = go w.completed refl
    where
      go :
          (l : List TaskCompletedEvent)
          → w.completed ≡ l
          → Advances ext registry plan ledger w (coordinate_completed ext w).1
            ⊎ (w.completed ≡ []) × ((coordinate_completed ext w).1 ≡ w)
      go [] none = inr (none, coordinate-idle ext w none track.calm)
      go (event ∷ later) some_event =
          let ours : event.execution_id ≡ plan.execution_id =
            (subst (λ l. All (IsExpected ext registry plan w.tasks) l) some_event
              track.expected).0.0 in
          let same : receiving ext doc registry plan ledger event.task_id event.ref_id later w ≡ w =
            ap
              (λ (n : ℕ). record w {
                completed = record event { execution_id = n } ∷ later;
                outages = [];
              })
              (sym ours)
            ∙ ap (λ l. record w { completed = l; outages = [] }) (sym some_event)
            ∙ ap (λ o. record w { outages = o }) (sym track.calm) in
          inl (
            subst
              (λ x.
                OnTrack ext registry plan ledger x
                → Advances ext registry plan ledger x (coordinate_completed ext x).1)
              same
              (coordinate-Advances ext doc registry plan ledger event.task_id event.ref_id later w)
              track)
