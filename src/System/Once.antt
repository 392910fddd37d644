-- ===== src/System/Once.antt =====
-- Each task is handed out at most once at a time, and not before it is released.
use go_tempo.Base.{
  ℕ, zero, suc, ◌+◌, ◌≤◌, ◌<◌, ◌≡◌, ◌≢◌, refl, ap, Bool, true, false, [], String, ◌==◌, arith,
  Bool-cases, inl, inr, ==_iff,
}
use go_tempo.External.{External, Documented}
use go_tempo.World.{World}
use go_tempo.Repository.Evolution.{statements}
use go_tempo.Repository.Locks.{IsKeyed}
use go_tempo.Worker.Registry.{Context, TaskRegistry}
use go_tempo.Worker.Phases.{Phase, advance}
use go_tempo.System.Steps.{
  Beside, submit, complete, terminate, disturb, lose_completed, lose_terminated,
}
use go_tempo.System.Advance.{advance-keeps}
use go_tempo.System.Threads.{
  Threads, worker_of, all_threads, reached, advance_thread, Turn, move, around, Run, start, later,
}
use go_tempo.System.Safety.{IsIdle}
use go_tempo.System.Tokens.{one_if, queued, works_on, total, total-put, workers_on, released}
use go_tempo.System.TokenSteps.{advance-Handed}
use go_tempo.System.Covered.{Covers, Covers-closed, Covers-less, IsCovered}
use go_tempo.System.Handouts.{coordinate_completed-Clear, coordinate_terminated-Clear}
use go_tempo.System.Submissions.{handle_submit-Clear}

total-zero : (n : ℕ) (f : ℕ → ℕ) → ((i : ℕ) → f i ≡ 0) → total n f ≡ 0
total-zero zero f h = refl
total-zero (suc n) f h = omega (arith, h n, total-zero n f h)

-- One summand is at most the sum, and so are two together.
total-le : (n i : ℕ) (f : ℕ → ℕ) → i < n → f i ≤ total n f
total-le zero i f lt = absurd (omega arith)
total-le (suc n) i f lt = elim (Bool-cases (n == i)) [
  | inl here ↦ omega (arith, ap f ((==_iff n i).0 here))
  | inr other ↦ let lt' : i < n = ground arith in omega (arith, total-le n i f lt')
]

total-le_two : (n i j : ℕ) (f : ℕ → ℕ) → i < n → j < n → i ≢ j → f i + f j ≤ total n f
total-le_two zero i j f lt lt' differ = absurd (omega arith)
total-le_two (suc n) i j f lt lt' differ = elim (Bool-cases (n == i)) [
  | inl i_last ↦
      let same = (==_iff n i).0 i_last in
      let j_before : j < n = ground (arith, differ) in
      omega (arith, ap f same, total-le n j f j_before)
  | inr i_not ↦ elim (Bool-cases (n == j)) [
    | inl j_last ↦
        let same = (==_iff n j).0 j_last in
        let i_before : i < n = ground arith in omega (arith, ap f same, total-le n i f i_before)
    | inr j_not ↦
        let i_before : i < n = ground arith in
        let j_before : j < n = ground arith in
        omega (arith, total-le_two n i j f i_before j_before differ)
  ]
]

one-busy : (a c : Bool) (q n : ℕ) → a ≡ true → one_if a ≤ n → q + n ≤ one_if c → c ≡ true
one-busy a true q n busy le once = refl
one-busy a false q n busy le once = absurd (omega (arith, ap one_if busy))

two-busy :
    (a b c : Bool) (q n : ℕ) → a ≡ true → one_if a + one_if b ≤ n → q + n ≤ one_if c → b ≡ false
two-busy a false c q n busy le once = refl
two-busy a true true q n busy le once = absurd (omega (arith, ap one_if busy))
two-busy a true false q n busy le once = absurd (omega (arith, ap one_if busy))

module _ (ext : External) (doc : Documented ext) (registry : TaskRegistry)
    (main_id retry_id : String) where
  -- The lists and the threads together hold a task at most once, and only if it is released.
  abbrev IsOnceHanded : Threads → Type 0
  IsOnceHanded s =
      Covers (λ id. queued ext id s.world + workers_on ext id s.phase) s.world.executions
        s.world.tasks

  move-IsOnceHanded :
      (i : ℕ) (ctx : Context) (s : Threads)
      → i < all_threads
      → IsOnceHanded s
      → IsOnceHanded (advance_thread ext registry main_id retry_id i ctx s)
  move-IsOnceHanded i ctx s lt c =
      let worker = worker_of registry main_id retry_id i in
      let closed = Covers-closed ext (λ id. queued ext id s.world + workers_on ext id s.phase) in
      let after =
        (advance-keeps ext worker (statements ext closed).methods ctx (s.phase i)
            (λ t e same may. (statements ext closed).retries t.id t.version)).keep
          s.world (record { holds = c }) in
      Covers-less _ _ _ _
        (λ id.
          let moved =
            total-put (λ p. one_if (works_on ext id p)) all_threads i
              (reached (advance ext worker ctx (s.phase i) s.world).0) s.phase lt in
          let handed = advance-Handed ext doc worker ctx id (s.phase i) s.world in
          omega (arith, moved, handed))
        after.holds

  Beside-IsOnceHanded :
      (phase : ℕ → Phase) {v w : World}
      → Beside ext registry main_id retry_id v w
      → IsCovered ext doc (λ id. workers_on ext id phase) [] v
      → IsCovered ext doc (λ id. workers_on ext id phase) [] w
  Beside-IsOnceHanded phase (submit new_id request w) c =
      (handle_submit-Clear ext doc (λ id. workers_on ext id phase) new_id request).keep w c
  Beside-IsOnceHanded phase (complete w) c =
      (coordinate_completed-Clear ext doc (λ id. workers_on ext id phase)).keep w c
  Beside-IsOnceHanded phase (terminate w) c =
      (coordinate_terminated-Clear ext doc (λ id. workers_on ext id phase)).keep w c
  Beside-IsOnceHanded phase (disturb outages w) c = c
  Beside-IsOnceHanded phase (lose_completed event rest w e) c = c
  Beside-IsOnceHanded phase (lose_terminated event rest w e) c = c

  Turn-IsOnceHanded :
      {s t : Threads} → Turn ext registry main_id retry_id s t → IsOnceHanded s → IsOnceHanded t
  Turn-IsOnceHanded {s} (move i ctx lt) c = move-IsOnceHanded i ctx s lt c
  Turn-IsOnceHanded {s} (around w step) c =
      Covers-less _ _ _ _ (λ id. omega arith)
        (Beside-IsOnceHanded s.phase step (Covers-less _ _ _ _ (λ id. omega arith) c))

  Run-IsOnceHanded :
      {s t : Threads} → Run ext registry main_id retry_id s t → IsOnceHanded s → IsOnceHanded t
  Run-IsOnceHanded start c = c
  Run-IsOnceHanded (later r turn) c = Turn-IsOnceHanded turn (Run-IsOnceHanded r c)

  idle-IsOnceHanded :
      (s : Threads)
      → IsIdle s
      → IsKeyed s.world.tasks
      → s.world.pending ≡ []
      → s.world.retry ≡ []
      → IsOnceHanded s
  idle-IsOnceHanded s quiet keyed no_pending no_retry = record {
    keyed = keyed;
    within = λ id.
        let free =
          total-zero all_threads (λ i. one_if (works_on ext id (s.phase i)))
            (λ i. rw (quiet i) refl) in
        rw (no_pending, no_retry) (omega (arith, free));
  }

  -- However the threads interleave, and whatever fails, no two threads work on the same task at a time,
  -- from the moment each takes its id from a list until it puts it back or has done with it; if at
  -- first the ids of the rows were distinct, both lists empty, and no thread at work.
  pub Run-one_worker :
      {s t : Threads}
      → Run ext registry main_id retry_id s t
      → IsIdle s
      → IsKeyed s.world.tasks
      → s.world.pending ≡ []
      → s.world.retry ≡ []
      → (id i j : ℕ) → i < all_threads
      → j < all_threads
      → i ≢ j
      → works_on ext id (t.phase i) ≡ true
      → works_on ext id (t.phase j) ≡ false
  Run-one_worker {s} {t} r quiet keyed no_pending no_retry id i j i_lt j_lt differ busy =
      let once =
        (Run-IsOnceHanded r (idle-IsOnceHanded s quiet keyed no_pending no_retry)).within id in
      let both =
        total-le_two all_threads i j (λ k. one_if (works_on ext id (t.phase k))) i_lt j_lt differ in
      two-busy _ _ _ (queued ext id t.world) (workers_on ext id t.phase) busy both once

  -- However the threads interleave, and whatever fails, a thread works only on a task whose counter has
  -- come down to 0 or below; if at first the ids of the rows were distinct,
  -- both lists empty, and no thread at work.
  pub Run-released :
      {s t : Threads}
      → Run ext registry main_id retry_id s t
      → IsIdle s
      → IsKeyed s.world.tasks
      → s.world.pending ≡ []
      → s.world.retry ≡ []
      → (id i : ℕ) → i < all_threads
      → works_on ext id (t.phase i) ≡ true
      → released id t.world.tasks ≡ true
  Run-released {s} {t} r quiet keyed no_pending no_retry id i i_lt busy =
      let once =
        (Run-IsOnceHanded r (idle-IsOnceHanded s quiet keyed no_pending no_retry)).within id in
      let one = total-le all_threads i (λ k. one_if (works_on ext id (t.phase k))) i_lt in
      one-busy _ _ (queued ext id t.world) (workers_on ext id t.phase) busy one once
