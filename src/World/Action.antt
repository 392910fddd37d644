-- ===== src/World/Action.antt =====
-- Actions on the world that may fail. What was done before a failure stays done.
use go_tempo.Base.{
  ◌≡◌, refl, sym, ap, subst, String, Bool, true, false, List, [], ◌∷◌, Option, none, some,
}
use go_tempo.Domain.{Task, WorkflowExecution, TaskCompletedEvent, TaskTerminatedEvent}
use go_tempo.World.Metrics.{Metric}
use go_tempo.World.State.{World, Error, Result, ok, err}

abbrev pub M : Type 0 → Type 0
M A = World → Result A × World

unfoldable pub pure : {A : Type 0} → A → M A
pure a w = (ok a, w)

unfoldable pub throw : {A : Type 0} → Error → M A
throw e w = (err e, w)

-- Reads a part of the world.
unfoldable pub gets : {A : Type 0} → (World → A) → M A
gets f w = (ok (f w), w)

-- Writes to one part of the world.
unfoldable pub write_tasks : (List Task → List Task) → M (Unit {0})
write_tasks f w = (ok tt, record w { tasks = f w.tasks })

unfoldable pub write_executions : (List WorkflowExecution → List WorkflowExecution) → M (Unit {0})
write_executions f w = (ok tt, record w { executions = f w.executions })

unfoldable pub write_pending : (List String → List String) → M (Unit {0})
write_pending f w = (ok tt, record w { pending = f w.pending })

unfoldable pub write_retry : (List String → List String) → M (Unit {0})
write_retry f w = (ok tt, record w { retry = f w.retry })

unfoldable pub write_completed : (List TaskCompletedEvent → List TaskCompletedEvent) → M (Unit {0})
write_completed f w = (ok tt, record w { completed = f w.completed })

unfoldable pub write_terminated :
    (List TaskTerminatedEvent → List TaskTerminatedEvent) → M (Unit {0})
write_terminated f w = (ok tt, record w { terminated = f w.terminated })

unfoldable pub inc : Metric → M (Unit {0})
inc m w = (ok tt, record w { metrics = m ∷ w.metrics })

unfoldable pub poll : Error → List Bool → M (Unit {0})
poll e [] w = (ok tt, w)
poll e (true ∷ later) w = (err e, record w { outages = later })
poll e (false ∷ later) w = (ok tt, record w { outages = later })

-- A call of a service. In an outage it fails with `e`, and has no effect.
unfoldable pub service : Error → M (Unit {0})
unfolding poll
service e w = poll e w.outages w

abbrev pub and_then : {A B : Type 0} → Result A → (A → M B) → M B
and_then (ok a) f w = f a w
and_then (err e) f w = (err e, w)

infixl 5 ◌>>=◌ ◌>>◌
unfoldable pub ◌>>=◌ : {A B : Type 0} → M A → (A → M B) → M B
◌>>=◌ m f w = let (r, w') = m w in and_then r f w'

abbrev pub ◌>>◌ : {A B : Type 0} → M A → M B → M B
m >> k = m >>= λ _. k

-- The result of a call, or its error, as a value.
unfoldable pub attempt : {A : Type 0} → M A → M (Result A)
attempt m w = let (r, w') = m w in (ok r, w')

-- The value, or the error of a query that finds none.
unfoldable pub some_or : {A : Type 0} → Error → Option A → M A
some_or e none = throw e
some_or e (some a) = pure a

-- A call whose error is dropped.
abbrev pub ignore : {A : Type 0} → M A → M (Unit {0})
ignore m = attempt m >>= λ _. pure tt

abbrev pub or_else : {A : Type 0} → M (Unit {0}) → Result A → M A
or_else k (ok a) = pure a
or_else k (err e) = k >>= λ _. throw e

-- A call with an action that runs before its error is returned.
unfoldable pub on_error : {A : Type 0} → M A → M (Unit {0}) → M A
on_error m k = attempt m >>= or_else k

-- To open this is to open every action of this file but `service`.
unfoldable pub replies : Unit {0}
unfolding pure throw gets write_tasks write_executions write_pending write_retry write_completed
    write_terminated inc ◌>>=◌ attempt some_or on_error
replies = tt

poll-nil : (e : Error) (w : World) (later : List Bool) → later ≡ [] → poll e later w ≡ (ok tt, w)
unfolding poll
poll-nil e w [] calm = refl
poll-nil e w (b ∷ later) calm = cc

-- With no outage ahead a call of a service has no effect of its own.
pub service-calm : (e : Error) (w : World) → w.outages ≡ [] → service e w ≡ (ok tt, w)
unfolding service
service-calm e w calm = poll-nil e w w.outages calm

-- To open this is to open every action of this file.
unfoldable pub actions : Unit {0}
unfolding pure throw gets write_tasks write_executions write_pending write_retry write_completed
    write_terminated inc service ◌>>=◌ attempt some_or on_error
actions = tt

-- What holds of the worlds with no outage ahead, each written with the empty list.
pub calm-elim {ℓ} :
    (P : World → Type ℓ)
    → ((w : World) → P (record w { outages = [] }))
    → (w : World) → w.outages ≡ []
    → P w
calm-elim P each w calm = subst P (sym (ap (λ o. record w { outages = o }) calm)) (each w)

-- What follows a call, by the call's result.
pub bind-ok :
    {A B : Type 0} (m : M A) (f : A → M B) (w : World) (a : A)
    → (m w).0 ≡ ok a
    → (m >>= f) w ≡ f a (m w).1
unfolding ◌>>=◌
bind-ok m f w a h = ap (λ r. and_then r f (m w).1) h

pub bind-err :
    {A B : Type 0} (m : M A) (f : A → M B) (w : World) (e : Error)
    → (m w).0 ≡ err e
    → (m >>= f) w ≡ (err e, (m w).1)
unfolding ◌>>=◌
bind-err m f w e h = ap (λ r. and_then r f (m w).1) h

pub bind-eq :
    {A B : Type 0} (m : M A) (f : A → M B) (w v : World) (a : A)
    → m w ≡ (ok a, v)
    → (m >>= f) w ≡ f a v
unfolding ◌>>=◌
bind-eq m f w v a h = ap (λ p. and_then p.0 f p.1) h
