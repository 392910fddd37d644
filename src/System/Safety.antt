-- ===== src/System/Safety.antt =====
-- What holds in every run of the interleaved threads.
use go_tempo.Base.{ℕ, ◌≡◌, ◌≢◌, String, some, none}
use go_tempo.Domain.{Task}
use go_tempo.External.{External}
use go_tempo.Repository.Locks.{IsKeyed}
use go_tempo.Repository.Retries.{IsBounded}
use go_tempo.Worker.Registry.{TaskRegistry}
use go_tempo.Worker.Phases.{idle}
use go_tempo.System.Invariant.{holding}
use go_tempo.System.Threads.{Threads, Run}
use go_tempo.System.Exclusion.{IsConsistent, Run-IsConsistent}

-- No thread has begun a task.
abbrev pub IsIdle : Threads → Type 0
IsIdle s = (i : ℕ) → s.phase i ≡ idle

idle-IsConsistent :
    (s : Threads) → IsIdle s → IsKeyed s.world.tasks → IsBounded s.world.tasks → IsConsistent s
idle-IsConsistent s quiet keyed bounded = record {
  keyed = keyed;
  bounded = bounded;
  known = λ i. rw (quiet i) tt;
  exclusive =
      λ i j t u differ held other. absurd (let no : none ≡ some t = rw (quiet i) at held in cc);
}

module _ (ext : External) (registry : TaskRegistry) (main_id retry_id : String) where
  -- However the threads interleave, and whatever fails, no two threads work at a time on the same
  -- version of a task, each between its claim and the statement that ends or retries the task; if the
  -- ids of the rows were distinct, and no thread had begun a task, and no task had too many retries.
  pub Run-exclusive :
      {s t : Threads}
      → Run ext registry main_id retry_id s t
      → IsIdle s
      → IsKeyed s.world.tasks
      → IsBounded s.world.tasks
      → (i j : ℕ) (a b : Task) → i ≢ j
      → holding (t.phase i) ≡ some a
      → holding (t.phase j) ≡ some b
      → a.id ≡ b.id
      → a.version ≢ b.version
  Run-exclusive {s} r quiet keyed bounded =
      (Run-IsConsistent ext registry main_id retry_id r
        (idle-IsConsistent s quiet keyed bounded)).exclusive

  -- However the threads interleave, and whatever fails, no task is retried more often than its maximum;
  -- if that was so before, the ids of the rows were distinct, and no thread had begun a task.
  pub Run-IsBounded :
      {s t : Threads}
      → Run ext registry main_id retry_id s t
      → IsIdle s
      → IsKeyed s.world.tasks
      → IsBounded s.world.tasks
      → IsBounded t.world.tasks
  Run-IsBounded {s} r quiet keyed bounded =
      (Run-IsConsistent ext registry main_id retry_id r
        (idle-IsConsistent s quiet keyed bounded)).bounded
