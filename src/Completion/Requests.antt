-- ===== src/Completion/Requests.antt =====
-- The rows of a request that can run to its end.
use go_tempo.Base.{
  ℕ, ◌+◌, ◌<◌, ◌≡◌, refl, ap, ◌∙◌, true, false, List, [], ◌∷◌, map, null, String, str_eq, eq_iff,
  has, arith, is_zero, if◌then◌else◌, ◌==◌, ==_iff, Bool-cases, inl, inr, All, All-implies, All-zip,
  IsDistinct, any,
}
use go_tempo.Domain.{Task, new_task}
use go_tempo.External.{External, IsPlain}
use go_tempo.Mapper.{TaskDto, elements, to_task, to_tasks}
use go_tempo.Repository.Rows.{with_defaults, has_task}
use go_tempo.Repository.Locks.{IsKeyed}
use go_tempo.Service.Submission.{is_zero-length, root_ids}
use go_tempo.Worker.Registry.{TaskRegistry}
use go_tempo.System.Tokens.{one_if, occurs}
use go_tempo.Completion.Counts.{==_comm}
use go_tempo.Completion.Rows.{is_row}
use go_tempo.Completion.Freed.{any-cons}
use go_tempo.Completion.Track.{Plan, Succeeds, has_name}

abbrev pub refs : List TaskDto → List String
refs dtos = map (λ dto. dto.ref_id) dtos

-- The id of the first task with the name.
abbrev number_in : (ℕ → ℕ) → ℕ → List TaskDto → String → ℕ
number_in new_id next [] r = 0
number_in new_id next (dto ∷ dtos) r =
    if str_eq r dto.ref_id then new_id next else number_in new_id (next + 1) dtos r

abbrev name_in : (ℕ → ℕ) → ℕ → List TaskDto → ℕ → String
name_in new_id next [] id = ""
name_in new_id next (dto ∷ dtos) id =
    if id == new_id next then dto.ref_id else name_in new_id (next + 1) dtos id

-- The order of the names is given.
abbrev pub plan_of : (new_id : ℕ → ℕ) (rank : String → ℕ) → List TaskDto → Plan
plan_of new_id rank dtos = record {
  execution_id = new_id 0;
  number = number_in new_id 1 dtos;
  name = name_in new_id 1 dtos;
  known = λ r. has r (refs dtos);
  rank = rank;
}

-- The task can run: its name needs no escape, it lists each dependency once, only tasks of the request
-- that rank before it, and its action succeeds.
pub record IsRunnable (ext : External) (registry : TaskRegistry) (rank : String → ℕ)
    (known : List String) (dto : TaskDto) : Type 0 where
  pub plain : IsPlain dto.ref_id
  pub distinct : IsDistinct (elements dto.dependencies)
  pub deps :
      All (λ d. (rank d < rank dto.ref_id) × (has d known ≡ true)) (elements dto.dependencies)
  pub succeeds : Succeeds ext registry dto.action dto.input

module _ (new_id : ℕ → ℕ) (e : ℕ) where
  abbrev pub rows_of : (next : ℕ) → List TaskDto → List Task
  rows_of next dtos = map with_defaults (to_tasks new_id e next dtos)

  rows-refs :
      (r : String) (next : ℕ) (dtos : List TaskDto)
      → has r (refs dtos) ≡ false
      → All (λ t. str_eq t.ref_id r ≡ false) (rows_of next dtos)
  unfolding to_tasks to_task with_defaults new_task
  rows-refs r next [] h = tt
  rows-refs r next (dto ∷ dtos) h =
      (ground (arith, h), rows-refs r (next + 1) dtos (ground (arith, h)))

  rows-ids : (id : ℕ) (ts : List Task) → has_task id ts ≡ false → All (λ t. (t.id == id) ≡ false) ts
  unfolding has_task
  rows-ids id [] h = tt
  rows-ids id (t ∷ ts) h = (ground (arith, h), rows-ids id ts (ground (arith, h)))

  pub rows-number :
      (next : ℕ) (dtos : List TaskDto)
      → IsDistinct (refs dtos)
      → All (λ t. number_in new_id next dtos t.ref_id ≡ t.id) (rows_of next dtos)
  unfolding to_tasks to_task with_defaults new_task
  rows-number next [] d = tt
  rows-number next (dto ∷ dtos) d = (
    rw ((eq_iff dto.ref_id dto.ref_id).1 refl) refl,
    All-zip _ (λ t away held. rw away held) (rows_of (next + 1) dtos)
        (rows-refs dto.ref_id (next + 1) dtos d.0) (rows-number (next + 1) dtos d.1),
  )

  pub rows-name :
      (next : ℕ) (dtos : List TaskDto)
      → IsKeyed (rows_of next dtos)
      → All (λ t. name_in new_id next dtos t.id ≡ t.ref_id) (rows_of next dtos)
  unfolding to_tasks to_task with_defaults new_task
  rows-name next [] k = tt
  rows-name next (dto ∷ dtos) k = (
    rw ((==_iff (new_id next) (new_id next)).1 refl) refl,
    All-zip _ (λ t away held. rw away held) (rows_of (next + 1) dtos)
        (rows-ids (new_id next) (rows_of (next + 1) dtos) k.0) (rows-name (next + 1) dtos k.1),
  )

  root-absent :
      (id next : ℕ) (dtos : List TaskDto)
      → has_task id (rows_of next dtos) ≡ false
      → occurs id (root_ids new_id next dtos) ≡ 0
  unfolding has_task to_tasks to_task with_defaults new_task
  root-absent id next [] h = refl
  root-absent id next (dto ∷ dtos) h =
      ground (arith, h, root-absent id (next + 1) dtos (ground (arith, h)))

  root-cons :
      (id next : ℕ) (dto : TaskDto) (dtos : List TaskDto)
      → (id == new_id next) ≡ false
      → occurs id (root_ids new_id next (dto ∷ dtos)) ≡ occurs id (root_ids new_id (next + 1) dtos)
  root-cons id next dto dtos other = elim (Bool-cases (null (elements dto.dependencies))) [
    | inl root ↦ rw root (omega (arith, ap one_if (==_comm (new_id next) id ∙ other)))
    | inr child ↦ rw child refl
  ]

  -- A root is in the list once.
  pub rows-root :
      (next : ℕ) (dtos : List TaskDto)
      → IsKeyed (rows_of next dtos)
      → All
          (λ t. occurs t.id (root_ids new_id next dtos) ≡ one_if (is_zero t.in_degree))
          (rows_of next dtos)
  unfolding to_tasks to_task with_defaults new_task
  rows-root next [] k = tt
  rows-root next (dto ∷ dtos) k =
      let gone = root-absent (new_id next) (next + 1) dtos k.0 in
      let away = rows-ids (new_id next) (rows_of (next + 1) dtos) k.0 in
      let rest = rows-root (next + 1) dtos k.1 in
      let self : one_if (new_id next == new_id next) ≡ 1 =
        ap one_if ((==_iff (new_id next) (new_id next)).1 refl) in
      (
        elim (Bool-cases (null (elements dto.dependencies))) [
          | inl root ↦
              rw (is_zero-length (elements dto.dependencies), root) (omega (arith, gone, self))
          | inr child ↦ rw (is_zero-length (elements dto.dependencies), child) gone
        ],
        All-zip _ (λ t other held. root-cons t.id next dto dtos other ∙ held)
            (rows_of (next + 1) dtos) away rest,
      )

  pub rows-has_name :
      (r : String) (next : ℕ) (dtos : List TaskDto)
      → has r (refs dtos) ≡ true
      → any (has_name e r) (rows_of next dtos) ≡ true
  unfolding to_tasks to_task with_defaults new_task
  rows-has_name r next [] h = absurd cc
  rows-has_name r next (dto ∷ dtos) h = elim (Bool-cases (str_eq dto.ref_id r)) [
    | inl here ↦ ground (arith, here)
    | inr away ↦ ground (arith, away, rows-has_name r (next + 1) dtos (rw away at h))
  ]

  pub rows-is_row :
      (next : ℕ) (dtos : List TaskDto)
      → All (λ id. any (is_row e id) (rows_of next dtos) ≡ true) (root_ids new_id next dtos)
  unfolding to_tasks to_task with_defaults new_task
  rows-is_row next [] = tt
  rows-is_row next (dto ∷ dtos) =
      let t = with_defaults (to_task (new_id next) e dto) in
      let rest =
        All-implies _ (λ id held. any-cons (is_row e id) t (rows_of (next + 1) dtos) held)
          (root_ids new_id (next + 1) dtos) (rows-is_row (next + 1) dtos) in
      elim (Bool-cases (null (elements dto.dependencies))) [
        | inl root ↦ rw root (ground arith, rest)
        | inr child ↦ rw child rest
      ]
