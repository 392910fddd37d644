-- ===== src/Samples/Services.antt =====
-- Services that behave as documented.
use Prim.Native.String.{◌++◌ as ◌+++◌}
use text.Mathlib.TextLemmas.{append_cancel_left, append_cancel_right}
use go_tempo.Base.{
  ℕ, zero, suc, ◌≡◌, refl, sym, ap, ◌∙◌, Bool, true, false, not, List, [], ◌∷◌, String, Option,
  none, some, str_eq, eq_iff, has, any, Bool-cases, inl, inr,
}
use go_tempo.Domain.{Json, strings}
use go_tempo.External.{External, Documented, dep_param, error_output}

-- A uuid is written in unary.
unfoldable pub write_id : ℕ → String
write_id zero = ""
write_id (suc n) = String.◌∷◌ "i" (write_id n)

unfoldable pub read_id : String → Option ℕ
read_id String.[] = some 0
read_id (String.◌∷◌ c s) = elim (read_id s) [ none ↦ none | some n ↦ some (suc n) ]

read_id-write_id : (n : ℕ) → read_id (write_id n) ≡ some n
unfolding read_id write_id
read_id-write_id zero = refl
read_id-write_id (suc n) = rw (read_id-write_id n)

contains : Json → String → Bool
contains (strings ds) text = any (λ d. str_eq (dep_param d) text) ds
contains _ text = false

unfoldable pub services : External
unfolding write_id read_id contains
services = record {
  uuid_string = write_id;
  uuid_parse = read_id;
  jsonb_valid = λ text. true;
  jsonb_contains = contains;
  accepts_task = λ t. true;
  accepts_execution = λ e. true;
}

dep_param-injective : (d r : String) → dep_param d ≡ dep_param r → d ≡ r
dep_param-injective d r e =
    append_cancel_left "[\"" d r (append_cancel_right ("[\"" +++ d) ("[\"" +++ r) "\"]" e)

str_eq-dep_param : (d r : String) → str_eq (dep_param d) (dep_param r) ≡ str_eq d r
str_eq-dep_param d r = elim (Bool-cases (str_eq d r)) [
  | inl same ↦
      (eq_iff (dep_param d) (dep_param r)).1 (ap dep_param ((eq_iff d r).0 same)) ∙ sym same
  | inr other ↦ elim (Bool-cases (str_eq (dep_param d) (dep_param r))) [
    | inl same ↦
        let e : d ≡ r = dep_param-injective d r ((eq_iff (dep_param d) (dep_param r)).0 same) in
        let yes : str_eq d r ≡ true = (eq_iff d r).1 e in cc
    | inr differ ↦ differ ∙ sym other
  ]
]

contains-has : (ds : List String) (r : String) → contains (strings ds) (dep_param r) ≡ has r ds
unfolding contains
contains-has [] r = refl
contains-has (d ∷ ds) r = rw (str_eq-dep_param d r, contains-has ds r)

pub services-Documented : Documented services
unfolding services
services-Documented = record {
  parse-string = read_id-write_id;
  valid-dep = λ r p. refl;
  valid-error = λ m p. refl;
  valid-skipped = refl;
  contains-strings = λ ds r p. contains-has ds r;
  contains-null = λ r. refl;
  contains-absent = λ r. refl;
}

-- Services whose JSON parser refuses one text: a message that is a quote.
unfoldable pub strict_services : External
unfolding services
strict_services = record services { jsonb_valid = λ text. not (str_eq text (error_output "\"")) }
