-- ===== src/Worker/Registry.antt =====
-- internal/worker/registry.go
use go_tempo.Base.{
  ℕ, zero, suc, ◌+◌, List, [], ◌∷◌, String, Option, none, some, str_eq, if◌then◌else◌,
}
use go_tempo.Domain.{Json}
use go_tempo.World.{failure, Result, ok, err}

-- What a handler sees of its context: at its i-th look, the error of a context that is done.
abbrev pub Context : Type 0
Context = ℕ → Option String

-- The output and the error of an action. What it prints is left out.
abbrev pub TaskHandler : Type 0
TaskHandler = Context → Json → Result String

-- A map from actions to handlers.
abbrev pub TaskRegistry : Type 0
TaskRegistry = List (String × TaskHandler)

unfoldable pub lookup : TaskRegistry → String → Option TaskHandler
lookup [] action = none
lookup ((name, handler) ∷ rest) action =
    if str_eq name action then some handler else lookup rest action

-- A handler that prints, sleeps and then always succeeds with the same text.
abbrev returns : String → TaskHandler
returns output ctx input = ok output

-- The loop of timeout_task: `rounds` are left, and the next look at the context is number `i`.
unfoldable pub timeout_loop : (rounds i : ℕ) → TaskHandler
timeout_loop zero i ctx input = ok "{\"status\": \"success\", \"completed\": true}"
timeout_loop (suc rounds) i ctx input = elim (ctx i) [
  | some e ↦ err (failure e)
  | none ↦ timeout_loop rounds (i + 1) ctx input
]

unfoldable pub init_registry : TaskRegistry
unfolding timeout_loop lookup
init_registry =
    (
      "create_employee_profile",
      returns
          "{\"status\": \"success\", \"employee_id\": \"EMP-12345\", \"profile_created\": true}",
    )
    ∷ (
      "setup_email_account",
      returns
          "{\"status\": \"success\", \"email\": \"john.doe@company.com\", \"mailbox_created\": true}",
    )
    ∷ (
      "assign_equipment",
      returns
          "{\"status\": \"success\", \"laptop_id\": \"LT-789\", \"monitor_id\": \"MN-456\", \"assigned\": true}",
    )
    ∷ (
      "enroll_benefits",
      returns
          "{\"status\": \"success\", \"health_plan\": \"Premium PPO\", \"401k_enrolled\": true}",
    )
    ∷ (
      "schedule_orientation",
      returns
          "{\"status\": \"success\", \"orientation_date\": \"2026-03-01\", \"calendar_invite_sent\": true}",
    )
    ∷ ("failing_task", λ ctx input. err (failure "simulated task failure"))
    ∷ ("timeout_task", timeout_loop 100 0)
    ∷ []
