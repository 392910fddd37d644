-- ===== src/System/Exclusion.antt =====
-- The invariant of the interleaved threads, and what follows from it.
use go_tempo.Base.{
  ℕ, ◌+◌, ◌≤◌, ◌≡◌, ◌≢◌, refl, sym, ap, subst, ◌∙◌, false, List, [], ◌∷◌, String, Option, none,
  some, ◌==◌, ==_iff, ==_refl, arith, All, Bool-cases, inl, inr,
}
use go_tempo.Domain.{Task}
use go_tempo.External.{External}
use go_tempo.World.{World}
use go_tempo.Repository.Evolution.{methods_under, statements}
use go_tempo.Repository.Locks.{IsKeyed}
use go_tempo.Repository.Retries.{IsBounded, IsSound-closed, IsLater, Knows, Quiet-steps}
use go_tempo.Worker.Registry.{Context, TaskRegistry}
use go_tempo.Worker.Process.{Worker}
use go_tempo.Worker.Phases.{Phase, advance}
use go_tempo.System.Advance.{advance-keeps}
use go_tempo.System.Invariant.{holding, known_task, KnowsOf, KnowsOf-closed, advance-IsSound}
use go_tempo.System.Learning.{advance-Learns}
use go_tempo.System.Progress.{Beside-keeps}
use go_tempo.System.Holding.{Found, Found-le, holding-known_task, advance-Source}
use go_tempo.System.Threads.{
  Threads, worker_of, reached, put, advance_thread, Turn, move, around, Run, start, later,
}

-- Two threads that hold claims of one task hold claims of different versions of it.
abbrev pub IsExclusive : (ℕ → Phase) → Type 0
IsExclusive phase =
    (i j : ℕ) (t u : Task)
    → i ≢ j
    → holding (phase i) ≡ some t
    → holding (phase j) ≡ some u
    → t.id ≡ u.id
    → t.version ≢ u.version

pub record IsConsistent (s : Threads) : Type 0 where
  pub keyed : IsKeyed s.world.tasks
  pub bounded : IsBounded s.world.tasks
  pub known : (i : ℕ) → KnowsOf (known_task (s.phase i)) s.world.executions s.world.tasks
  pub exclusive : IsExclusive s.phase

module _ (ext : External) (worker : Worker) (ctx : Context) where
  -- A step of one thread leaves what another one knows.
  advance-KnowsOf :
      (phase : Phase) (o : Option Task) (w : World)
      → KnowsOf o w.executions w.tasks
      → KnowsOf o
          (advance ext worker ctx phase w).1.executions
          (advance ext worker ctx phase w).1.tasks
  advance-KnowsOf phase o w q =
      ((advance-keeps ext worker (statements ext (KnowsOf-closed ext o)).methods ctx phase
          (λ t e same may. (statements ext (KnowsOf-closed ext o)).retries t.id t.version)).keep
        w (record { holds = q })).holds

put-same : (i : ℕ) (p : Phase) (f : ℕ → Phase) → put i p f i ≡ p
put-same i p f = rw (==_refl i) refl

-- A thread other than the one that moves.
put-other : (i j : ℕ) (p : Phase) (f : ℕ → Phase) → (j == i) ≡ false → put i p f j ≡ f j
put-other i j p f h = rw h refl

-- A claim that is held is of no later version than the row.
held-le :
    (phase : Phase) (u task : Task) (w : World)
    → KnowsOf (known_task phase) w.executions w.tasks
    → holding phase ≡ some u
    → task.id ≡ u.id
    → Found task w
    → u.version ≤ task.version
held-le phase u task w known held same found =
    let knows : Knows u w.executions w.tasks =
      subst (λ o. KnowsOf o w.executions w.tasks) (holding-known_task phase u held) known in
    Found-le task.id task.version u.version w.tasks
      (subst (λ id. All (λ r. r.id ≡ id → u.version ≤ r.version) w.tasks) (sym same)
        (below u w.tasks knows.rows))
      found
  where
    below :
        (u : Task) (ts : List Task)
        → All (λ r. r.id ≡ u.id → IsLater u r) ts
        → All (λ r. r.id ≡ u.id → u.version ≤ r.version) ts
    below u [] all = tt
    below u (t ∷ ts) all = ((λ e. (all.0 e).version), below u ts all.1)

-- The thread that moved holds no version that another one holds.
moved-exclusive :
    (ext : External) (worker : Worker) (ctx : Context) (s : Threads) (i j : ℕ) (t u : Task)
    → IsConsistent s
    → i ≢ j
    → holding (reached (advance ext worker ctx (s.phase i) s.world).0) ≡ some t
    → holding (s.phase j) ≡ some u
    → t.id ≡ u.id
    → t.version ≢ u.version
moved-exclusive ext worker ctx s i j t u c differ held other same =
    elim (advance-Source ext worker ctx (s.phase i) s.world t held) [
      | inl before ↦ c.exclusive i j t u differ before other same
      | inr (task, from, claim, found) ↦ λ e.
          let id : task.id ≡ u.id = ap (λ (x : Task). x.id) (sym claim) ∙ same in
          let le = held-le (s.phase j) u task s.world (c.known j) other id found in
          let new : t.version ≡ task.version + 1 = ap (λ (x : Task). x.version) claim in
          absurd (omega arith)
    ]

module _ (ext : External) (registry : TaskRegistry) (main_id retry_id : String) where
  move-IsExclusive :
      (i : ℕ) (ctx : Context) (s : Threads)
      → IsConsistent s
      → IsExclusive (advance_thread ext registry main_id retry_id i ctx s).phase
  move-IsExclusive i ctx s c a b t u differ = elim (Bool-cases (a == i)) [
    | inl a_is ↦ elim (Bool-cases (b == i)) [
      | inl b_is ↦ absurd (differ ((==_iff a i).0 a_is ∙ sym ((==_iff b i).0 b_is)))
      | inr b_not ↦
          rw (a_is, b_not)
            (moved-exclusive ext _ ctx s i b t u c (λ e. differ ((==_iff a i).0 a_is ∙ e)))
    ]
    | inr a_not ↦ elim (Bool-cases (b == i)) [
      | inl b_is ↦
          rw (a_not, b_is)
            (λ held other same e.
              moved-exclusive ext _ ctx s i a u t c (λ x. differ (sym ((==_iff b i).0 b_is ∙ x)))
                other held (sym same) (sym e))
      | inr b_not ↦ rw (a_not, b_not) (c.exclusive a b t u differ)
    ]
  ]

  move-known :
      (i : ℕ) (ctx : Context) (s : Threads)
      → IsConsistent s
      → (j : ℕ)
      → KnowsOf
          (known_task ((advance_thread ext registry main_id retry_id i ctx s).phase j))
          (advance_thread ext registry main_id retry_id i ctx s).world.executions
          (advance_thread ext registry main_id retry_id i ctx s).world.tasks
  move-known i ctx s c j = elim (Bool-cases (j == i)) [
    | inl mine ↦ rw mine (
        advance-Learns ext _ ctx (s.phase i) s.world
          (record { keyed = c.keyed; bounded = c.bounded; fact = c.known i }))
    | inr other ↦
        rw other
          (advance-KnowsOf ext _ ctx (s.phase i) (known_task (s.phase j)) s.world (c.known j))
  ]

  Turn-IsConsistent :
      {s t : Threads} → Turn ext registry main_id retry_id s t → IsConsistent s → IsConsistent t
  Turn-IsConsistent {s} (move i ctx lt) c =
      let after =
        (advance-IsSound ext (worker_of registry main_id retry_id i) ctx (s.phase i)).keep s.world
          (record { holds = record { keyed = c.keyed; bounded = c.bounded; fact = c.known i } }) in
      record {
        keyed = after.holds.keyed;
        bounded = after.holds.bounded;
        known = move-known i ctx s c;
        exclusive = move-IsExclusive i ctx s c;
      }
  Turn-IsConsistent {s} (around w step) c =
      let after =
        Beside-keeps ext registry main_id retry_id
          (methods_under ext Quiet-steps (IsSound-closed ext (KnowsOf-closed ext none))) step
          (record { holds = record { keyed = c.keyed; bounded = c.bounded; fact = tt } }) in
      record {
        keyed = after.holds.keyed;
        bounded = after.holds.bounded;
        known = λ j.
            (Beside-keeps ext registry main_id retry_id
              (statements ext (KnowsOf-closed ext (known_task (s.phase j)))).methods step
              (record { holds = c.known j })).holds;
        exclusive = c.exclusive;
      }

  pub Run-IsConsistent :
      {s t : Threads} → Run ext registry main_id retry_id s t → IsConsistent s → IsConsistent t
  Run-IsConsistent start c = c
  Run-IsConsistent (later r turn) c = Turn-IsConsistent turn (Run-IsConsistent r c)
