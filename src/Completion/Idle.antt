-- ===== src/Completion/Idle.antt =====
-- A turn of a thread that finds nothing: BLPop does not return, and a channel has no event.
use go_tempo.Base.{◌≡◌, refl, sym, ap, subst, ◌∙◌, [], String}
use go_tempo.External.{External}
use go_tempo.World.{World, actions}
use go_tempo.Redis.Queue.{pop, take_front}
use go_tempo.Redis.EventBus.{
  receive_completed, forward_completed, receive_terminated, forward_terminated,
}
use go_tempo.Coordinator.{coordinate_completed, coordinate_terminated}
use go_tempo.Worker.Registry.{Context, TaskRegistry}
use go_tempo.Worker.Process.{pop_and_fetch_task, process_next_task}
use go_tempo.System.{main_worker, retry_worker}

module _ (ext : External) (registry : TaskRegistry) (me : String) (ctx : Context) where
  main_blocked :
      (v : World)
      → (process_next_task ext
          (main_worker registry me)
          ctx
          (record v { pending = []; outages = [] })).1
        ≡ record v { pending = []; outages = [] }
  unfolding process_next_task pop_and_fetch_task pop take_front actions
  main_blocked v = refl

  retry_blocked :
      (v : World)
      → (process_next_task ext
          (retry_worker registry me)
          ctx
          (record v { retry = []; outages = [] })).1
        ≡ record v { retry = []; outages = [] }
  unfolding process_next_task pop_and_fetch_task pop take_front actions
  retry_blocked v = refl

  pub work-idle :
      (w : World)
      → w.pending ≡ []
      → w.outages ≡ []
      → (process_next_task ext (main_worker registry me) ctx w).1 ≡ w
  work-idle w none calm =
      subst (λ x. (process_next_task ext (main_worker registry me) ctx x).1 ≡ x)
        (ap (λ p. record w { pending = p; outages = [] }) (sym none)
          ∙ ap (λ o. record w { outages = o }) (sym calm))
        (main_blocked w)

  pub work_again-idle :
      (w : World)
      → w.retry ≡ []
      → w.outages ≡ []
      → (process_next_task ext (retry_worker registry me) ctx w).1 ≡ w
  work_again-idle w none calm =
      subst (λ x. (process_next_task ext (retry_worker registry me) ctx x).1 ≡ x)
        (ap (λ p. record w { retry = p; outages = [] }) (sym none)
          ∙ ap (λ o. record w { outages = o }) (sym calm))
        (retry_blocked w)

module _ (ext : External) where
  silent_completed :
      (v : World)
      → (coordinate_completed ext (record v { completed = []; outages = [] })).1
        ≡ record v { completed = []; outages = [] }
  unfolding coordinate_completed receive_completed forward_completed actions
  silent_completed v = refl

  silent_terminated :
      (v : World)
      → (coordinate_terminated ext (record v { terminated = []; outages = [] })).1
        ≡ record v { terminated = []; outages = [] }
  unfolding coordinate_terminated receive_terminated forward_terminated actions
  silent_terminated v = refl

  pub coordinate-idle :
      (w : World) → w.completed ≡ [] → w.outages ≡ [] → (coordinate_completed ext w).1 ≡ w
  coordinate-idle w none calm =
      subst (λ x. (coordinate_completed ext x).1 ≡ x)
        (ap (λ l. record w { completed = l; outages = [] }) (sym none)
          ∙ ap (λ o. record w { outages = o }) (sym calm))
        (silent_completed w)

  pub coordinate_terminated-idle :
      (w : World) → w.terminated ≡ [] → w.outages ≡ [] → (coordinate_terminated ext w).1 ≡ w
  coordinate_terminated-idle w none calm =
      subst (λ x. (coordinate_terminated ext x).1 ≡ x)
        (ap (λ l. record w { terminated = l; outages = [] }) (sym none)
          ∙ ap (λ o. record w { outages = o }) (sym calm))
        (silent_terminated w)
