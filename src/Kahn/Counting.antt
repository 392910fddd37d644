-- ===== src/Kahn/Counting.antt =====
-- The count of ended dependencies reaches their number exactly when all have ended.
use go_tempo.Base.{
  ◌+◌, ◌≤◌, ◌≡◌, refl, ap, false, List, [], ◌∷◌, String, str_eq, eq_iff, ◌==◌, if◌then◌else◌, has,
  length, IsDistinct, arith, Bool-cases, inl, inr,
}
use go_tempo.Kahn.Ends.{Ledger, ended, all_ended, hits, IsOnce}

-- One dependency more.
hits-cons :
    (d : String) (ds : List String) (es : Ledger)
    → has d ds ≡ false
    → IsOnce es
    → hits (d ∷ ds) es ≡ (if ended d es then 1 else 0) + hits ds es
hits-cons d ds [] new once = refl
hits-cons d ds ((e, bad) ∷ es) new once =
    let rest = hits-cons d ds es new once.1 in
    elim (Bool-cases (str_eq d e)) [
      | inl same ↦
          let eq : d ≡ e = (eq_iff d e).0 same in
          ground (arith, rest, ap (λ (s : String). has s ds) eq, ap (λ (s : String). ended s es) eq)
      | inr other ↦ ground (arith, rest)
    ]

hits-nil : (es : Ledger) → hits [] es ≡ 0
hits-nil [] = refl
hits-nil ((e, bad) ∷ es) = ground (arith, hits-nil es)

pub hits-le : (ds : List String) (es : Ledger) → IsDistinct ds → IsOnce es → hits ds es ≤ length ds
hits-le [] es distinct once = omega (arith, hits-nil es)
hits-le (d ∷ ds) es distinct once =
    ground (arith, hits-cons d ds es distinct.0 once, hits-le ds es distinct.1 once)

pub hits-all_ended :
    (ds : List String) (es : Ledger)
    → IsDistinct ds
    → IsOnce es
    → (length ds == hits ds es) ≡ all_ended ds es
hits-all_ended [] es distinct once = rw (hits-nil es)
hits-all_ended (d ∷ ds) es distinct once = ground (
  arith,
  hits-cons d ds es distinct.0 once,
  hits-le ds es distinct.1 once,
  hits-all_ended ds es distinct.1 once,
)
