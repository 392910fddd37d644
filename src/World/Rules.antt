-- ===== src/World/Rules.antt =====
-- Properties of the world that an action preserves, with a rule for each way to build an action.
-- Taken at `R w₀`, the rules show that what an action does is a step of the preorder `R`.
use go_tempo.Base.{◌≡◌, refl, Bool, true, false, if◌then◌else◌, Option, none, some}
use go_tempo.World.State.{World, Error, Result, ok, err}
use go_tempo.World.Action.{
  M, pure, some_or, throw, gets, ◌>>=◌, attempt, on_error, or_else, and_then,
}

-- `P` holds after the action too, also if the action fails.
pub record Preserves {ℓ} (P : World → Type ℓ) {A : Type 0} (m : M A) : Type ℓ where
  pub keep : (w : World) → P w → P (m w).1

module _ {ℓ} {P : World → Type ℓ} {A : Type 0} where
  pub pure-Preserves : (a : A) → Preserves P (pure a)
  unfolding pure
  pure-Preserves a = record { keep = λ _ p. p }

  pub throw-Preserves : (e : Error) → Preserves P (throw {A = A} e)
  unfolding throw
  throw-Preserves e = record { keep = λ _ p. p }

  pub gets-Preserves : (f : World → A) → Preserves P (gets f)
  unfolding gets
  gets-Preserves f = record { keep = λ _ p. p }

  pub if-Preserves :
      (b : Bool) (m n : M A)
      → (b ≡ true → Preserves P m)
      → (b ≡ false → Preserves P n)
      → Preserves P (if b then m else n)
  if-Preserves true m n yes_case no_case = yes_case refl
  if-Preserves false m n yes_case no_case = no_case refl

  pub attempt-Preserves : (m : M A) → Preserves P m → Preserves P (attempt m)
  unfolding attempt
  attempt-Preserves m p = record { keep = p.keep }

module _ {ℓ} {P : World → Type ℓ} {A : Type 0} where
  pub some_or-Preserves : (e : Error) (o : Option A) → Preserves P (some_or e o)
  unfolding some_or
  some_or-Preserves e none = throw-Preserves e
  some_or-Preserves e (some a) = pure-Preserves a

module _ {ℓ} {P : World → Type ℓ} {A B : Type 0} where
  and_then-Preserves :
      (r : Result A) (f : A → M B)
      → ((a : A) → Preserves P (f a))
      → (w : World) → P w
      → P (and_then r f w).1
  and_then-Preserves (ok a) f rest w p = (rest a).keep w p
  and_then-Preserves (err e) f rest w p = p

  pub bind-Preserves :
      (m : M A) (f : A → M B)
      → Preserves P m
      → ((a : A) → Preserves P (f a))
      → Preserves P (m >>= f)
  unfolding ◌>>=◌
  bind-Preserves m f first rest = record {
    keep = λ w p. and_then-Preserves (m w).0 f rest (m w).1 (first.keep w p);
  }

module _ {ℓ} {P : World → Type ℓ} {A : Type 0} where
  or_else-Preserves : (k : M Unit) (r : Result A) → Preserves P k → Preserves P (or_else k r)
  or_else-Preserves k (ok a) p = pure-Preserves a
  or_else-Preserves k (err e) p = bind-Preserves k _ p (λ _. throw-Preserves e)

  pub on_error-Preserves :
      (m : M A) (k : M Unit) → Preserves P m → Preserves P k → Preserves P (on_error m k)
  unfolding on_error
  on_error-Preserves m k p q =
      bind-Preserves (attempt m) (or_else k) (attempt-Preserves m p) (λ r. or_else-Preserves k r q)

pub ruleset preserves_rules = (
  pure-Preserves, throw-Preserves, gets-Preserves, some_or-Preserves, if-Preserves,
  attempt-Preserves, bind-Preserves, on_error-Preserves,
)
