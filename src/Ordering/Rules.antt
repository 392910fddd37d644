-- ===== src/Ordering/Rules.antt =====
-- Actions in which the order of the rows plays no part, with a rule for each way to build an action.
use go_tempo.Base.{
  ◌≡◌, refl, ap, ◌∙◌, String, Bool, true, false, if◌then◌else◌, List, [], ◌∷◌, Option, none, some,
}
use go_tempo.Domain.{Task, WorkflowExecution, TaskCompletedEvent, TaskTerminatedEvent}
use go_tempo.World.{
  World, M, Metric, Error, Result, ok, err, pure, throw, gets, some_or, inc, poll, service, attempt,
  on_error, or_else, and_then, ◌>>=◌, write_executions, write_pending, write_retry, write_completed,
  write_terminated,
}
use go_tempo.Ordering.Rows.{Reordered}

-- With the rows in another order, the outcome is the same, and so is the world after it, but for the
-- order of its rows.
abbrev pub Agrees : {A : Type 0} → M A → (w : World) (ts : List Task) → Type 0
Agrees m w ts =
    (later : List Task) × (m (record w { tasks = ts })
      ≡ ((m w).0, record (m w).1 { tasks = later }))
    × Reordered (m w).1.tasks later

pub record Orderless {A : Type 0} (m : M A) : Type 0 where
  pub keep : (w : World) (ts : List Task) → Reordered w.tasks ts → Agrees m w ts

module _ {A : Type 0} where
  pub pure-Orderless : (a : A) → Orderless (pure a)
  unfolding pure
  pure-Orderless a = record { keep = λ w ts h. (ts, refl, h) }

  pub throw-Orderless : (e : Error) → Orderless (throw {A = A} e)
  unfolding throw
  throw-Orderless e = record { keep = λ w ts h. (ts, refl, h) }

  pub gets-Orderless :
      (f : World → A)
      → ((w : World) (ts : List Task) → Reordered w.tasks ts → f (record w { tasks = ts }) ≡ f w)
      → Orderless (gets f)
  unfolding gets
  gets-Orderless f same = record {
    keep = λ w ts h. (ts, ap (λ a. (ok a, record w { tasks = ts })) (same w ts h), h);
  }

  pub if-Orderless :
      (b : Bool) (m n : M A) → Orderless m → Orderless n → Orderless (if b then m else n)
  if-Orderless true m n p q = p
  if-Orderless false m n p q = q

  pub attempt-Orderless : (m : M A) → Orderless m → Orderless (attempt m)
  unfolding attempt
  attempt-Orderless m p = record {
    keep = λ w ts h.
        let (later, same, rows) = p.keep w ts h in (later, ap (λ r. (ok r.0, r.1)) same, rows);
  }

module _ {A : Type 0} where
  pub some_or-Orderless : (e : Error) (o : Option A) → Orderless (some_or e o)
  unfolding some_or
  some_or-Orderless e none = throw-Orderless e
  some_or-Orderless e (some a) = pure-Orderless a

module _ {A B : Type 0} where
  and_then-Agrees :
      (r : Result A) (f : A → M B)
      → ((a : A) → Orderless (f a))
      → (w : World) (ts : List Task) → Reordered w.tasks ts
      → Agrees (and_then r f) w ts
  and_then-Agrees (ok a) f rest w ts h = (rest a).keep w ts h
  and_then-Agrees (err e) f rest w ts h = (ts, refl, h)

  pub bind-Orderless :
      (m : M A) (f : A → M B) → Orderless m → ((a : A) → Orderless (f a)) → Orderless (m >>= f)
  unfolding ◌>>=◌
  bind-Orderless m f first rest = record {
    keep = λ w ts h.
        let (middle, same, rows) = first.keep w ts h in
        let (later, follows, end) = and_then-Agrees (m w).0 f rest (m w).1 middle rows in
        (later, ap (λ r. and_then r.0 f r.1) same ∙ follows, end);
  }

module _ {A : Type 0} where
  or_else-Orderless : (k : M Unit) (r : Result A) → Orderless k → Orderless (or_else k r)
  or_else-Orderless k (ok a) p = pure-Orderless a
  or_else-Orderless k (err e) p = bind-Orderless k _ p (λ _. throw-Orderless e)

  pub on_error-Orderless :
      (m : M A) (k : M Unit) → Orderless m → Orderless k → Orderless (on_error m k)
  unfolding on_error
  on_error-Orderless m k p q =
      bind-Orderless (attempt m) (or_else k) (attempt-Orderless m p) (λ r. or_else-Orderless k r q)

pub inc-Orderless : (m : Metric) → Orderless (inc m)
unfolding inc
inc-Orderless m = record { keep = λ w ts h. (ts, refl, h) }

poll-Agrees :
    (e : Error) (l : List Bool) (w : World) (ts : List Task)
    → Reordered w.tasks ts
    → Agrees (poll e l) w ts
unfolding poll
poll-Agrees e [] w ts h = (ts, refl, h)
poll-Agrees e (true ∷ l) w ts h = (ts, refl, h)
poll-Agrees e (false ∷ l) w ts h = (ts, refl, h)

pub service-Orderless : (e : Error) → Orderless (service e)
unfolding service
service-Orderless e = record { keep = λ w ts h. poll-Agrees e w.outages w ts h }

pub write_executions-Orderless :
    (f : List WorkflowExecution → List WorkflowExecution) → Orderless (write_executions f)
unfolding write_executions
write_executions-Orderless f = record { keep = λ w ts h. (ts, refl, h) }

pub write_pending-Orderless : (f : List String → List String) → Orderless (write_pending f)
unfolding write_pending
write_pending-Orderless f = record { keep = λ w ts h. (ts, refl, h) }

pub write_retry-Orderless : (f : List String → List String) → Orderless (write_retry f)
unfolding write_retry
write_retry-Orderless f = record { keep = λ w ts h. (ts, refl, h) }

pub write_completed-Orderless :
    (f : List TaskCompletedEvent → List TaskCompletedEvent) → Orderless (write_completed f)
unfolding write_completed
write_completed-Orderless f = record { keep = λ w ts h. (ts, refl, h) }

pub write_terminated-Orderless :
    (f : List TaskTerminatedEvent → List TaskTerminatedEvent) → Orderless (write_terminated f)
unfolding write_terminated
write_terminated-Orderless f = record { keep = λ w ts h. (ts, refl, h) }

pub ruleset orderless_rules = (
  pure-Orderless, throw-Orderless, some_or-Orderless, if-Orderless, attempt-Orderless,
  bind-Orderless, on_error-Orderless, inc-Orderless, service-Orderless, write_executions-Orderless,
  write_pending-Orderless, write_retry-Orderless, write_completed-Orderless,
  write_terminated-Orderless,
)
