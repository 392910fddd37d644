-- ===== src/System/Tokens.antt =====
-- Who has been handed a task: the ids in the two lists, and the threads that work on one.
use go_tempo.Base.{
  ℕ, zero, suc, ◌+◌, ◌≤◌, ◌<◌, ◌≡◌, refl, ap, Bool, true, false, ◌&&◌, ◌||◌, List, [], ◌∷◌, ◌++◌,
  map, String, Option, none, some, ℤ, pos, negsuc, ◌≤ℤ◌, ◌==◌, arith, Bool-cases, inl, inr, ==_iff,
}
use go_tempo.Domain.{Task}
use go_tempo.External.{External}
use go_tempo.World.{World}
use go_tempo.Repository.Rows.{update_where, with_defaults}
use go_tempo.Repository.Evolution.{Closed, TaskProgress}
use go_tempo.Worker.Phases.{Phase, popped, fetched, claimed, rejecting, rejected, retrying, acted}
use go_tempo.System.Threads.{put, all_threads}

abbrev pub one_if : Bool → ℕ
one_if true = 1
one_if false = 0

-- Is it the id?
abbrev pub is_named : ℕ → Option ℕ → Bool
is_named id none = false
is_named id (some x) = x == id

abbrev pub listed : External → ℕ → List String → ℕ
listed ext id [] = 0
listed ext id (s ∷ l) = one_if (is_named id (ext.uuid_parse s)) + listed ext id l

abbrev pub occurs : ℕ → List ℕ → ℕ
occurs id [] = 0
occurs id (x ∷ l) = one_if (x == id) + occurs id l

-- How often the id waits in the two lists.
abbrev pub queued : External → ℕ → World → ℕ
queued ext id w = listed ext id w.pending + listed ext id w.retry

-- Does the thread work on the task, from the moment it took its id from a list, until it puts it back,
-- or has done with it?
abbrev pub works_on : External → ℕ → Phase → Bool
works_on ext id (popped task_id) = is_named id (ext.uuid_parse task_id)
works_on ext id (fetched task) = task.id == id
works_on ext id (claimed task) = task.id == id
works_on ext id (rejecting task) = task.id == id
works_on ext id (rejected task) = task.id == id
works_on ext id (acted task result) = task.id == id
works_on ext id (retrying task) = task.id == id
works_on ext id _ = false

abbrev pub total : ℕ → (ℕ → ℕ) → ℕ
total zero f = 0
total (suc n) f = f n + total n f

-- How many of the threads work on the task.
abbrev pub workers_on : External → ℕ → (ℕ → Phase) → ℕ
workers_on ext id phase = total all_threads (λ i. one_if (works_on ext id (phase i)))

abbrev pub may_start : ℤ → Bool
may_start (pos zero) = true
may_start (pos (suc n)) = false
may_start (negsuc n) = true

-- Has the counter of the task come down to 0?
abbrev pub released : ℕ → List Task → Bool
released id [] = false
released id (t ∷ ts) = t.id == id && may_start t.in_degree || released id ts

may_start-le : (a b : ℤ) → b ≤ℤ a → may_start a ≡ true → may_start b ≡ true
may_start-le (pos zero) (pos zero) le h = refl
may_start-le (pos zero) (pos (suc n)) le h = absurd (omega arith)
may_start-le (pos (suc m)) b le h = cc
may_start-le a (negsuc n) le h = refl
may_start-le (negsuc m) (pos n) le h = absurd le

released-update_where :
    (id : ℕ) (p : Task → Bool) (f : Task → Task) (ts : List Task)
    → ((t : Task) → p t ≡ true → TaskProgress t (f t))
    → released id ts ≡ true
    → released id (update_where p f ts) ≡ true
unfolding update_where
released-update_where id p f [] step h = h
released-update_where id p f (t ∷ ts) step h = elim (Bool-cases (p t)) [
  | inl hit ↦ ground (
    arith,
    hit,
    (step t hit).id,
    may_start-le t.in_degree (f t).in_degree (step t hit).in_degree,
    released-update_where id p f ts step,
  )
  | inr miss ↦ ground (arith, miss, released-update_where id p f ts step)
]

released-append :
    (id : ℕ) (xs ys : List Task) → released id xs ≡ true → released id (xs ++ ys) ≡ true
released-append id [] ys h = cc
released-append id (x ∷ xs) ys h = ground (arith, released-append id xs ys)

-- A release is never undone.
pub released-closed : (ext : External) (id : ℕ) → Closed ext (λ es ts. released id ts ≡ true)
released-closed ext id = record {
  on_update = λ p f es ts step q. released-update_where id p f ts step q;
  on_status = λ p f es ts step q. q;
  on_execution = λ e es ts q. q;
  on_insert = λ more es ts fit fresh q. released-append id ts (map with_defaults more) q;
}

pub listed-append :
    (ext : External) (id : ℕ) (xs ys : List String)
    → listed ext id (xs ++ ys) ≡ listed ext id xs + listed ext id ys
listed-append ext id [] ys = omega arith
listed-append ext id (x ∷ xs) ys = omega (arith, listed-append ext id xs ys)

total-put-beyond :
    (g : Phase → ℕ) (n i : ℕ) (p : Phase) (f : ℕ → Phase)
    → n ≤ i
    → total n (λ j. g (put i p f j)) ≡ total n (λ j. g (f j))
total-put-beyond g zero i p f le = refl
total-put-beyond g (suc n) i p f le =
    let other : (n == i) ≡ false = ground arith in
    rw other (omega (arith, total-put-beyond g n i p f (omega arith)))

-- One summand changes.
pub total-put :
    (g : Phase → ℕ) (n i : ℕ) (p : Phase) (f : ℕ → Phase)
    → i < n
    → total n (λ j. g (put i p f j)) + g (f i) ≡ total n (λ j. g (f j)) + g p
total-put g zero i p f lt = absurd (omega arith)
total-put g (suc n) i p f lt = elim (Bool-cases (n == i)) [
  | inl here ↦
      let same : n ≡ i = (==_iff n i).0 here in
      rw here (omega (arith, total-put-beyond g n i p f (omega arith), ap (λ j. g (f j)) same))
  | inr other ↦ let lt' : i < n = ground arith in rw other (omega (arith, total-put g n i p f lt'))
]
