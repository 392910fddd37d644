-- ===== src/System/Threads.antt =====
-- The threads of the two worker pools, interleaved: between two calls of a service in one thread, the
-- others may run, and so may the coordinator and the HTTP handler, each from its call to its return.
use go_tempo.Base.{ℕ, ◌+◌, ◌<◌, ◌==◌, ltb, if◌then◌else◌, String}
use go_tempo.External.{External}
use go_tempo.World.{World, Result, ok, err}
use go_tempo.Worker.Registry.{TaskRegistry, Context}
use go_tempo.Worker.Process.{Worker}
use go_tempo.Worker.Phases.{Phase, idle, advance}
use go_tempo.System.Steps.{Beside, main_worker, retry_worker}

-- The world, and where each thread stands.
pub record Threads : Type 0 where
  pub world : World
  pub phase : ℕ → Phase

-- StartPool is called with 9 for the main queue and with 1 for the retry queue.
abbrev pub main_threads : ℕ
main_threads = 9

abbrev pub all_threads : ℕ
all_threads = main_threads + 1

abbrev pub worker_of : TaskRegistry → (main_id retry_id : String) → ℕ → Worker
worker_of registry main_id retry_id i =
    if ltb i main_threads then main_worker registry main_id else retry_worker registry retry_id

-- A step of a thread does not fail.
abbrev pub reached : Result Phase → Phase
reached (ok phase) = phase
reached (err e) = idle

abbrev pub put : ℕ → Phase → (ℕ → Phase) → ℕ → Phase
put i phase phases j = if j == i then phase else phases j

module _ (ext : External) (registry : TaskRegistry) (main_id retry_id : String) where
  abbrev pub advance_thread : ℕ → Context → Threads → Threads
  advance_thread i ctx s =
      let (r, w) = advance ext (worker_of registry main_id retry_id i) ctx (s.phase i) s.world in
      record { world = w; phase = put i (reached r) s.phase }

  pub data Turn (s : Threads) : Threads → Type 0 where
    move : (i : ℕ) (ctx : Context) → i < all_threads → Turn s (advance_thread i ctx s)
    around :
        (w : World)
        → Beside ext registry main_id retry_id s.world w
        → Turn s (record s { world = w })

  pub data Run (s₀ : Threads) : Threads → Type 0 where
    start : Run s₀ s₀
    later : {s t : Threads} → Run s₀ s → Turn s t → Run s₀ t
