-- ===== src/Worker/Timeouts.antt =====
-- The handler timeout_task of internal/worker/registry.go.
use go_tempo.Base.{
  ℕ, zero, suc, ◌+◌, ◌<◌, ◌≡◌, ◌⊎◌, inl, inr, refl, ap, ◌∙◌, String, some, none, arith,
  Option-cases,
}
use go_tempo.Domain.{Json}
use go_tempo.World.{failure, ok, err}
use go_tempo.Worker.Registry.{Context, timeout_loop}

-- The context is not done at the looks from `i` on, `n` of them.
abbrev pub IsOpen : Context → (i n : ℕ) → Type 0
IsOpen ctx i zero = Unit
IsOpen ctx i (suc n) = (ctx i ≡ none) × IsOpen ctx (i + 1) n

-- The first look from `i` on that finds the context done is number `k`, with the error `e`.
abbrev pub IsDoneAt : Context → (i k : ℕ) → String → Type 0
IsDoneAt ctx i k e = IsOpen ctx i k × (ctx (i + k) ≡ some e)

-- The loop succeeds if the context is not done at any of its looks, and otherwise returns the error
-- of the first look that finds it done.
pub timeout_loop_lem :
    (rounds i : ℕ) (ctx : Context) (input : Json)
    → IsOpen ctx i rounds
        × (timeout_loop rounds i ctx input ≡ ok "{\"status\": \"success\", \"completed\": true}")
      ⊎ ((k : ℕ) × (e : String) × (k < rounds)
          × IsDoneAt ctx i k e
          × (timeout_loop rounds i ctx input ≡ err (failure e)))
unfolding timeout_loop
timeout_loop_lem zero i ctx input = inl (tt, refl)
timeout_loop_lem (suc rounds) i ctx input = elim (Option-cases (ctx i)) [
  | inl alive ↦ elim (timeout_loop_lem rounds (i + 1) ctx input) [
    | inl (all, done) ↦ inl ((alive, all), rw (alive, timeout_loop) done)
    | inr (k, e, lt, (before, now), fails) ↦ inr (
      suc k,
      e,
      omega arith,
      ((alive, before), ap ctx (omega arith) ∙ now),
      rw (alive, timeout_loop) fails,
    )
  ]
  | inr (e, done) ↦
      inr (0, e, omega arith, (tt, ap ctx (omega arith) ∙ done), rw (done, timeout_loop))
]
