-- ===== src/Completion/Counts.antt =====
-- Counting what is on its way: ids in the lists, events in the channel, ends in the ledger.
use go_tempo.Base.{
  ℕ, ◌+◌, ◌≤◌, ◌≡◌, refl, ap, Bool, true, false, not, ◌&&◌, List, [], ◌∷◌, ◌++◌, map, String,
  str_eq, eq_iff, has, arith, Bool-cases, inl, inr, ◌==◌, All,
}
use go_tempo.Domain.{TaskCompletedEvent}
use go_tempo.External.{External, Documented}
use go_tempo.Kahn.{Ledger, ended, all_ended, tainted}
use go_tempo.System.Tokens.{one_if, occurs, listed, is_named}

-- How many events of the task are in the channel.
abbrev pub reported : ℕ → List TaskCompletedEvent → ℕ
reported id [] = 0
reported id (event ∷ events) = one_if (event.task_id == id) + reported id events

pub one_if_le : (b : Bool) → one_if b ≤ 1
one_if_le true = omega arith
one_if_le false = omega arith

pub one_if-zero : (b : Bool) → one_if b ≡ 0 → b ≡ false
one_if-zero true h = absurd (omega arith)
one_if-zero false h = refl

pub and_false : (b : Bool) → (b && false) ≡ false
and_false true = refl
and_false false = refl

pub one_if-one : (b : Bool) → 1 ≤ one_if b → b ≡ true
one_if-one true h = refl
one_if-one false h = absurd (omega arith)

pub one_if-not : (b : Bool) → one_if (not b) + one_if b ≡ 1
one_if-not true = omega arith
one_if-not false = omega arith

pub ==_comm : (a b : ℕ) → (a == b) ≡ (b == a)
==_comm a b = ground arith

pub reported-append :
    (id : ℕ) (events : List TaskCompletedEvent) (event : TaskCompletedEvent)
    → reported id (events ++ event ∷ []) ≡ reported id events + one_if (event.task_id == id)
reported-append id [] event = omega arith
reported-append id (e ∷ events) event = omega (arith, reported-append id events event)

pub listed-map :
    (ext : External) (doc : Documented ext) (id : ℕ) (ids : List ℕ)
    → listed ext id (map ext.uuid_string ids) ≡ occurs id ids
listed-map ext doc id [] = refl
listed-map ext doc id (x ∷ ids) =
    omega (arith, ap (λ o. one_if (is_named id o)) (doc.parse-string x), listed-map ext doc id ids)

-- What has not ended is no dependency that has.
all_ended-missing :
    (r : String) (ds : List String) (es : Ledger)
    → ended r es ≡ false
    → has r ds ≡ true
    → all_ended ds es ≡ false
all_ended-missing r [] es open_task h = cc
all_ended-missing r (d ∷ ds) es open_task h = elim (Bool-cases (str_eq d r)) [
  | inl same ↦
      let still : ended d es ≡ false = rw ((eq_iff d r).0 same) open_task in ground (arith, still)
  | inr other ↦ ground (arith, other, h, all_ended-missing r ds es open_task)
]

all_ended-other :
    (r : String) (ds : List String) (es : Ledger)
    → has r ds ≡ false
    → all_ended ds ((r, false) ∷ es) ≡ all_ended ds es
all_ended-other r [] es h = refl
all_ended-other r (d ∷ ds) es h = ground (arith, h, all_ended-other r ds es)

-- The end of a task makes ready what waited for it last.
pub all_ended-cons :
    (r : String) (ds : List String) (es : Ledger)
    → ended r es ≡ false
    → one_if (all_ended ds es) + one_if (has r ds && all_ended ds ((r, false) ∷ es))
      ≡ one_if (all_ended ds ((r, false) ∷ es))
all_ended-cons r ds es open_task = elim (Bool-cases (has r ds)) [
  | inl here ↦ rw (here, all_ended-missing r ds es open_task here) (omega arith)
  | inr away ↦ rw (away, all_ended-other r ds es away) (omega arith)
]

-- No task of the ledger failed.
abbrev pub IsGood : Ledger → Type 0
IsGood = All (λ entry. entry.1 ≡ false)

pub tainted-IsGood : (ds : List String) (es : Ledger) → IsGood es → tainted ds es ≡ false
tainted-IsGood ds [] good = refl
tainted-IsGood ds ((e, bad) ∷ es) good = rw (good.0) (tainted-IsGood ds es good.1)
