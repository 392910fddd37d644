-- ===== src/Ordering/Rows.antt =====
-- Tables with the same rows in another order.
use mathlib.Core.List.{Permᴰ}
use go_tempo.Base.{
  ℕ, ◌≡◌, refl, ap, ◌∙◌, Bool, false, List, [], ◌∷◌, arith, Bool-cases, inl, inr, ◌==◌,
  if◌then◌else◌, first_where,
}
use go_tempo.Domain.{Task}
use go_tempo.Repository.Rows.{update_where, count_where, has_task}
use go_tempo.Repository.Locks.{IsKeyed}

-- The same rows, with distinct ids.
abbrev pub Reordered : List Task → List Task → Type 0
Reordered xs ys = IsKeyed xs × Permᴰ xs ys

pub count_where-Permᴰ :
    (p : Task → Bool) {xs ys : List Task} → Permᴰ xs ys → count_where p ys ≡ count_where p xs
unfolding count_where
count_where-Permᴰ p Permᴰ.nil = refl
count_where-Permᴰ p (Permᴰ.cons e d) = rw (e, count_where-Permᴰ p d) refl
count_where-Permᴰ p (Permᴰ.swap e k) = rw (e, k) (omega arith)
count_where-Permᴰ p (Permᴰ.trans c d) = count_where-Permᴰ p d ∙ count_where-Permᴰ p c

pub update_where-Permᴰ :
    (p : Task → Bool) (f : Task → Task) {xs ys : List Task}
    → Permᴰ xs ys
    → Permᴰ (update_where p f xs) (update_where p f ys)
unfolding update_where
update_where-Permᴰ p f Permᴰ.nil = Permᴰ.nil
update_where-Permᴰ p f (Permᴰ.cons e d) =
    Permᴰ.cons (ap (λ x. if p x then f x else x) e) (update_where-Permᴰ p f d)
update_where-Permᴰ p f (Permᴰ.swap e k) =
    Permᴰ.swap (ap (λ x. if p x then f x else x) e) (ap (λ x. if p x then f x else x) k)
update_where-Permᴰ p f (Permᴰ.trans c d) =
    Permᴰ.trans (update_where-Permᴰ p f c) (update_where-Permᴰ p f d)

has_task-Permᴰ : (id : ℕ) {xs ys : List Task} → Permᴰ xs ys → has_task id ys ≡ has_task id xs
unfolding has_task
has_task-Permᴰ id Permᴰ.nil = refl
has_task-Permᴰ id (Permᴰ.cons e d) = rw (e, has_task-Permᴰ id d) refl
has_task-Permᴰ id (Permᴰ.swap e k) = rw (e, k) (ground arith)
has_task-Permᴰ id (Permᴰ.trans c d) = has_task-Permᴰ id d ∙ has_task-Permᴰ id c

swap-IsKeyed : (a b : Task) (l : List Task) → IsKeyed (a ∷ b ∷ l) → IsKeyed (b ∷ a ∷ l)
unfolding has_task
swap-IsKeyed a b l k = (ground (arith, k.0, k.1.0), (ground (arith, k.0), k.1.1))

swap-first_where :
    (id : ℕ) (a b : Task) (l : List Task)
    → IsKeyed (a ∷ b ∷ l)
    → first_where (λ t. t.id == id) (b ∷ a ∷ l) ≡ first_where (λ t. t.id == id) (a ∷ b ∷ l)
unfolding has_task
swap-first_where id a b l k = elim (Bool-cases (a.id == id)) [
  | inl here ↦ let other : (b.id == id) ≡ false = ground (arith, k.0, here) in rw (here, other) refl
  | inr away ↦ rw away refl
]

IsKeyed-Permᴰ : {xs ys : List Task} → Permᴰ xs ys → IsKeyed xs → IsKeyed ys
IsKeyed-Permᴰ Permᴰ.nil k = tt
IsKeyed-Permᴰ (Permᴰ.cons e d) k = rw (← e, has_task-Permᴰ _ d) (k.0, IsKeyed-Permᴰ d k.1)
IsKeyed-Permᴰ (Permᴰ.swap e h) k = rw (← e, ← h) (swap-IsKeyed _ _ _ k)
IsKeyed-Permᴰ (Permᴰ.trans c d) k = IsKeyed-Permᴰ d (IsKeyed-Permᴰ c k)

pub first_where-Permᴰ :
    (id : ℕ) {xs ys : List Task}
    → Permᴰ xs ys
    → IsKeyed xs
    → first_where (λ t. t.id == id) ys ≡ first_where (λ t. t.id == id) xs
first_where-Permᴰ id Permᴰ.nil k = refl
first_where-Permᴰ id (Permᴰ.cons e d) k = rw (e, first_where-Permᴰ id d k.1) refl
first_where-Permᴰ id (Permᴰ.swap e h) k = rw (← e, ← h) (swap-first_where id _ _ _ k)
first_where-Permᴰ id (Permᴰ.trans c d) k =
    first_where-Permᴰ id d (IsKeyed-Permᴰ c k) ∙ first_where-Permᴰ id c k

-- A statement that keeps the ids keeps them distinct.
has_task-same :
    (id : ℕ) (p : Task → Bool) (f : Task → Task) (ts : List Task)
    → ((t : Task) → (f t).id ≡ t.id)
    → has_task id (update_where p f ts) ≡ has_task id ts
unfolding has_task update_where
has_task-same id p f [] same = refl
has_task-same id p f (t ∷ ts) same = elim (Bool-cases (p t)) [
  | inl hit ↦ rw (hit, same t, has_task-same id p f ts same) refl
  | inr miss ↦ rw (miss, has_task-same id p f ts same) refl
]

pub update_where-IsKeyed :
    (p : Task → Bool) (f : Task → Task) (ts : List Task)
    → ((t : Task) → (f t).id ≡ t.id)
    → IsKeyed ts
    → IsKeyed (update_where p f ts)
unfolding update_where
update_where-IsKeyed p f [] same k = tt
update_where-IsKeyed p f (t ∷ ts) same k = elim (Bool-cases (p t)) [
  | inl hit ↦
      rw (hit, same t, has_task-same t.id p f ts same) (k.0, update_where-IsKeyed p f ts same k.1)
  | inr miss ↦ rw (miss, has_task-same t.id p f ts same) (k.0, update_where-IsKeyed p f ts same k.1)
]
