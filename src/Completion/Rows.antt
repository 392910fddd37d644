-- ===== src/Completion/Rows.antt =====
-- Rows of a table under an UPDATE: what each row keeps, and sums over the rows.
use go_tempo.Base.{
  ℕ, ◌+◌, ◌≤◌, ◌≡◌, refl, ap, Bool, true, false, ◌&&◌, List, [], ◌∷◌, some, arith, Bool-cases, inl,
  inr, if◌then◌else◌, ◌==◌, ==_iff, All, any, first_where,
}
use go_tempo.Domain.{Task}
use go_tempo.Repository.Rows.{update_where, count_where, has_version, has_task}
use go_tempo.Repository.Locks.{IsKeyed}
use go_tempo.System.Tokens.{one_if}

pub All-update_where {ℓ κ} :
    {P : Task → Type ℓ} (Q : Task → Type κ) (p : Task → Bool) (f : Task → Task)
    → ((u : Task) → P u → Q (if p u then f u else u))
    → (ts : List Task) → All P ts
    → All Q (update_where p f ts)
unfolding update_where
All-update_where Q p f step [] h = tt
All-update_where Q p f step (t ∷ ts) h = (step t h.0, All-update_where Q p f step ts h.1)

-- A test that the UPDATE does not touch.
pub any-update_where :
    (q p : Task → Bool) (f : Task → Task)
    → ((u : Task) → q (if p u then f u else u) ≡ q u)
    → (ts : List Task) → any q (update_where p f ts) ≡ any q ts
unfolding update_where
any-update_where q p f same [] = refl
any-update_where q p f same (t ∷ ts) = rw (same t, any-update_where q p f same ts) refl

pub any-All {ℓ} :
    {P : Task → Type ℓ} (q : Task → Bool) (ts : List Task)
    → any q ts ≡ true
    → All P ts
    → (t : Task) × (q t ≡ true) × P t
any-All q [] found h = absurd cc
any-All q (t ∷ ts) found h = elim (Bool-cases (q t)) [
  | inl here ↦ (t, here, h.0)
  | inr away ↦ any-All q ts (rw away at found) h.1
]

-- Is it the row of the execution with the id?
abbrev pub is_row : (execution_id id : ℕ) → Task → Bool
is_row execution_id id t = t.execution_id == execution_id && t.id == id

any-is_row : (e id : ℕ) (ts : List Task) → has_task id ts ≡ false → any (is_row e id) ts ≡ false
unfolding has_task
any-is_row e id [] h = refl
any-is_row e id (t ∷ ts) h = ground (arith, h, any-is_row e id ts)

-- The row of the execution with the id is what a lookup by the id finds.
pub first_where-is_row {ℓ} :
    {P : Task → Type ℓ} (e id : ℕ) (ts : List Task)
    → IsKeyed ts
    → any (is_row e id) ts ≡ true
    → All P ts
    → (t : Task) × (first_where (λ u. u.id == id) ts ≡ some t)
      × (t.execution_id ≡ e)
      × (t.id ≡ id)
      × P t
first_where-is_row e id [] keyed found h = absurd cc
first_where-is_row e id (t ∷ ts) keyed found h = elim (Bool-cases (t.id == id)) [
  | inl mine ↦ elim (Bool-cases (t.execution_id == e)) [
    | inl ours ↦ (t, rw mine refl, (==_iff t.execution_id e).0 ours, (==_iff t.id id).0 mine, h.0)
    | inr theirs ↦
        let gone : has_task id ts ≡ false = rw (← (==_iff t.id id).0 mine) keyed.0 in
        absurd (ground (arith, theirs, found, any-is_row e id ts gone))
  ]
  | inr other ↦
      let (u, first, ours, mine, held) =
        first_where-is_row e id ts keyed.1 (ground (arith, other, found)) h.1 in
      (u, rw other first, ours, mine, held)
]

-- A row that is found has its own version.
pub count_where-first :
    (id : ℕ) (ts : List Task) (t : Task)
    → first_where (λ u. u.id == id) ts ≡ some t
    → (count_where (has_version id t.version) ts == 0) ≡ false
unfolding count_where
count_where-first id [] t found = cc
count_where-first id (u ∷ ts) t found = elim (Bool-cases (u.id == id)) [
  | inl mine ↦
      let one : some u ≡ some t = rw mine at found in
      let row : u ≡ t = cc in
      let same : u.version ≡ t.version = ap (λ (x : Task). x.version) row in
      ground (arith, mine, same)
  | inr other ↦ ground (arith, other, count_where-first id ts t (rw other at found))
]

abbrev pub sum : (Task → ℕ) → List Task → ℕ
sum f [] = 0
sum f (t ∷ ts) = f t + sum f ts

-- Each row that passes the test gives up one, and no row takes any.
pub sum-update_where :
    (f g : Task → ℕ) (q p : Task → Bool) (h : Task → Task) (ts : List Task)
    → All (λ u. g (if p u then h u else u) + one_if (q u) ≤ f u) ts
    → sum g (update_where p h ts) + one_if (any q ts) ≤ sum f ts
unfolding update_where
sum-update_where f g q p h [] less = omega arith
sum-update_where f g q p h (t ∷ ts) less = elim (Bool-cases (q t)) [
  | inl here ↦ rw here (omega (arith, less.0, ap one_if here, sum-update_where f g q p h ts less.1))
  | inr away ↦ rw away (omega (arith, less.0, ap one_if away, sum-update_where f g q p h ts less.1))
]
