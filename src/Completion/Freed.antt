-- ===== src/Completion/Freed.antt =====
-- The rows that the end of a task makes ready.
use go_tempo.Base.{
  ℕ, ◌≡◌, refl, ap, Bool, true, false, ◌&&◌, List, [], ◌∷◌, String, arith, Bool-cases, inl, inr,
  All, All-implies, All-zip, any, ◌==◌, ==_iff,
}
use go_tempo.Domain.{Task}
use go_tempo.Kahn.{Ledger}
use go_tempo.Kahn.Refinement.{completes_deps, now_ready}
use go_tempo.Repository.Rows.{has_task}
use go_tempo.Repository.Locks.{IsKeyed}
use go_tempo.System.Tokens.{one_if, occurs}
use go_tempo.Completion.Rows.{is_row}

pub any-cons :
    (q : Task → Bool) (t : Task) (ts : List Task) → any q ts ≡ true → any q (t ∷ ts) ≡ true
any-cons q t ts h = ground (arith, h)

module _ (e : ℕ) (r : String) (ledger : Ledger) where
  now_ready-absent :
      (id : ℕ) (ts : List Task) → has_task id ts ≡ false → occurs id (now_ready e r ledger ts) ≡ 0
  unfolding has_task
  now_ready-absent id [] h = refl
  now_ready-absent id (t ∷ ts) h = ground (arith, h, now_ready-absent id ts)

  -- Each row of the execution stands among the ready ones once, or not at all.
  abbrev pub IsReadyOnce : List Task → Task → Type 0
  IsReadyOnce ts u =
      u.execution_id ≡ e
      → occurs u.id (now_ready e r ledger ts) ≡ one_if (completes_deps r ledger u)

  differ : (id : ℕ) (ts : List Task) → has_task id ts ≡ false → All (λ u. (id == u.id) ≡ false) ts
  unfolding has_task
  differ id [] h = tt
  differ id (t ∷ ts) h = (ground (arith, h), differ id ts (ground (arith, h)))

  now_ready-cons :
      (t : Task) (ts : List Task) (u : Task)
      → (t.id == u.id) ≡ false
      → IsReadyOnce ts u
      → IsReadyOnce (t ∷ ts) u
  now_ready-cons t ts u other h mine =
      elim (Bool-cases (t.execution_id == e && completes_deps r ledger t)) [
        | inl here ↦ rw (here, other) (omega (arith, h mine))
        | inr away ↦ rw away (h mine)
      ]

  pub now_ready-once : (ts : List Task) → IsKeyed ts → All (IsReadyOnce ts) ts
  now_ready-once [] keyed = tt
  now_ready-once (t ∷ ts) keyed = (
    λ mine.
        let ours : (t.execution_id == e) ≡ true = (==_iff t.execution_id e).1 mine in
        let self : one_if (t.id == t.id) ≡ 1 = ap one_if ((==_iff t.id t.id).1 refl) in
        let gone = now_ready-absent t.id ts keyed.0 in
        elim (Bool-cases (completes_deps r ledger t)) [
          | inl yes_ready ↦ rw (ours, yes_ready) (omega (arith, self, gone))
          | inr not_ready ↦ rw (ours, not_ready) gone
        ],
    All-zip _ (now_ready-cons t ts) ts (differ t.id ts keyed.0) (now_ready-once ts keyed.1),
  )

  -- What is ready is a row of the execution.
  pub now_ready-rows :
      (ts : List Task) → All (λ id. any (is_row e id) ts ≡ true) (now_ready e r ledger ts)
  now_ready-rows [] = tt
  now_ready-rows (t ∷ ts) =
      let rest =
        All-implies _ (λ id there. any-cons (is_row e id) t ts there) (now_ready e r ledger ts)
          (now_ready-rows ts) in
      elim (Bool-cases (t.execution_id == e && completes_deps r ledger t)) [
        | inl here ↦ rw here (ground (arith, here), rest)
        | inr away ↦ rw away rest
      ]
