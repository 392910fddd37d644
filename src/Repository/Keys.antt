-- ===== src/Repository/Keys.antt =====
-- The primary key of the tasks table is kept by every statement.
use go_tempo.Base.{
  ℕ, ◌≡◌, refl, ap, Bool, true, false, List, [], ◌∷◌, ◌++◌, map, ==_iff, ◌==◌, arith, Bool-cases,
  inl, inr,
}
use go_tempo.Domain.{Task}
use go_tempo.External.{External}
use go_tempo.Repository.Rows.{update_where, has_task, fits, with_defaults}
use go_tempo.Repository.Tasks.{accepts_row}
use go_tempo.Repository.Evolution.{Closed, TaskProgress}
use go_tempo.Repository.RowFacts.{has_task-update_where}
use go_tempo.Repository.Locks.{IsKeyed}

update_where-IsKeyed :
    (p : Task → Bool) (f : Task → Task) (ts : List Task)
    → ((t : Task) → p t ≡ true → TaskProgress t (f t))
    → IsKeyed ts
    → IsKeyed (update_where p f ts)
unfolding update_where
update_where-IsKeyed p f [] step k = tt
update_where-IsKeyed p f (t ∷ ts) step k =
    let rest = update_where-IsKeyed p f ts step k.1 in
    elim (Bool-cases (p t)) [
      | inl hit ↦ rw (hit, (step t hit).id, has_task-update_where t.id p f ts step) (k.0, rest)
      | inr miss ↦ rw (miss, has_task-update_where t.id p f ts step) (k.0, rest)
    ]

has_task-append-false :
    (id : ℕ) (xs ys : List Task)
    → has_task id xs ≡ false
    → has_task id ys ≡ false
    → has_task id (xs ++ ys) ≡ false
unfolding has_task
has_task-append-false id [] ys h k = k
has_task-append-false id (x ∷ xs) ys h k = ground (arith, has_task-append-false id xs ys)

-- A key of the table is no key of rows that fit it.
fits-has_task :
    (accepts : Task → Bool) (id : ℕ) (table more : List Task)
    → has_task id table ≡ true
    → fits accepts table more ≡ true
    → has_task id (map with_defaults more) ≡ false
unfolding fits has_task with_defaults
fits-has_task accepts id table [] known fit = refl
fits-has_task accepts id table (t ∷ ts) known fit =
    let rest = fits-has_task accepts id (t ∷ table) ts (ground arith) (ground arith) in
    elim (Bool-cases (t.id == id)) [
      | inl same ↦ ground (arith, ap (λ (n : ℕ). has_task n table) ((==_iff t.id id).0 same))
      | inr other ↦ rw other rest
    ]

more-IsKeyed :
    (accepts : Task → Bool) (table more : List Task)
    → fits accepts table more ≡ true
    → IsKeyed (map with_defaults more)
unfolding fits has_task with_defaults
more-IsKeyed accepts table [] fit = tt
more-IsKeyed accepts table (t ∷ ts) fit = (
  fits-has_task accepts t.id (t ∷ table) ts (ground arith) (ground arith),
  more-IsKeyed accepts (t ∷ table) ts (ground arith),
)

append-IsKeyed :
    (accepts : Task → Bool) (seen table more : List Task)
    → ((id : ℕ) → has_task id table ≡ true → has_task id seen ≡ true)
    → fits accepts seen more ≡ true
    → IsKeyed table
    → IsKeyed (table ++ map with_defaults more)
unfolding has_task
append-IsKeyed accepts seen [] more sub fit k = more-IsKeyed accepts seen more fit
append-IsKeyed accepts seen (t ∷ ts) more sub fit k = (
  has_task-append-false t.id ts (map with_defaults more) k.0
      (fits-has_task accepts t.id seen more (sub t.id (ground arith)) fit),
  append-IsKeyed accepts seen ts more (λ id h. sub id (ground arith)) fit k.1,
)

pub IsKeyed-closed : (ext : External) → Closed ext (λ es ts. IsKeyed ts)
IsKeyed-closed ext = record {
  on_update = λ p f es ts step k. update_where-IsKeyed p f ts step k;
  on_status = λ p f es ts step k. k;
  on_execution = λ e es ts k. k;
  on_insert =
      λ more es ts fit fresh k. append-IsKeyed (accepts_row ext) ts ts more (λ id h. h) fit k;
}
