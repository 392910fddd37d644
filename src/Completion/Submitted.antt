-- ===== src/Completion/Submitted.antt =====
-- The rows of a request that can run to its end, right after its submission.
use go_tempo.Base.{
  ℕ, ◌+◌, ◌≤◌, ◌<◌, ◌≡◌, ◌≢◌, refl, sym, ap, Bool, true, false, List, [], ◌∷◌, ◌++◌, map, String,
  Option, none, some, has, arith, length, is_zero, if◌then◌else◌, ◌==◌, Bool-cases, inl, inr, All,
  All-implies, All-zip, IsDistinct, any, not,
}
use go_tempo.Domain.{Task, TaskStatus, is_completed, new_task}
use go_tempo.External.{External, Documented, IsPlain}
use go_tempo.World.{World}
use go_tempo.Mapper.{TaskDto, CreateWorkflowRequest, to_task, to_tasks}
use go_tempo.Repository.Rows.{with_defaults}
use go_tempo.Repository.Locks.{IsKeyed}
use go_tempo.Service.Submission.{root_ids}
use go_tempo.Worker.Registry.{TaskRegistry}
use go_tempo.Kahn.Refinement.{deps_of}
use go_tempo.Kahn.Replay.{to_tasks-Counted}
use go_tempo.System.Tokens.{one_if, occurs}
use go_tempo.Completion.Counts.{one_if_le, listed-map}
use go_tempo.Completion.Rows.{sum}
use go_tempo.Completion.Track.{Plan, IsPlanned, AreTracked, Succeeds, left}
use go_tempo.Completion.Requests.{
  refs, plan_of, IsRunnable, rows_of, rows-number, rows-name, rows-root,
}

pub any-append : (q : Task → Bool) (xs ys : List Task) → any q ys ≡ true → any q (xs ++ ys) ≡ true
any-append q [] ys h = h
any-append q (x ∷ xs) ys h = ground (arith, any-append q xs ys h)

pub All-last {ℓ} : (P : Task → Type ℓ) (xs ys : List Task) → All P (xs ++ ys) → All P ys
All-last P [] ys h = h
All-last P (x ∷ xs) ys h = All-last P xs ys h.1

pub IsKeyed-last : (xs ys : List Task) → IsKeyed (xs ++ ys) → IsKeyed ys
IsKeyed-last [] ys k = k
IsKeyed-last (x ∷ xs) ys k = IsKeyed-last xs ys k.1

sum-append-zero :
    (f : Task → ℕ) (xs ys : List Task) → All (λ t. f t ≡ 0) xs → sum f (xs ++ ys) ≡ sum f ys
sum-append-zero f [] ys h = refl
sum-append-zero f (x ∷ xs) ys h = omega (arith, h.0, sum-append-zero f xs ys h.1)

module _ (ext : External) (doc : Documented ext) (registry : TaskRegistry) (new_id : ℕ → ℕ)
    (rank : String → ℕ) (req : CreateWorkflowRequest) where
  abbrev pub dtos : List TaskDto
  dtos = req.tasks

  abbrev pub plan : Plan
  plan = plan_of new_id rank dtos

  abbrev pub e : ℕ
  e = new_id 0

  -- What a row takes from its task.
  abbrev IsFresh : Task → Type 0
  IsFresh t =
      IsPlain t.ref_id
      × All (λ d. (rank d < rank t.ref_id) × (has d (refs dtos) ≡ true)) (deps_of t.dependencies)
      × Succeeds ext registry t.action t.input
      × (is_completed t.status ≡ false)

  pub fresh_status :
      (b : Bool) → is_completed (if b then TaskStatus.queued else TaskStatus.pending) ≡ false
  unfolding is_completed
  fresh_status true = refl
  fresh_status false = refl

  IsFresh-row :
      (id : ℕ) (ref_id action : String) (dependencies : Option (List String)) (input : _)
      → IsRunnable ext registry rank
          (refs dtos)
          (record { ref_id = ref_id; action = action; dependencies = dependencies; input = input })
      → IsFresh (
          with_defaults (
            to_task id e (record {
              ref_id = ref_id;
              action = action;
              dependencies = dependencies;
              input = input;
            })))
  unfolding to_task with_defaults new_task is_completed
  IsFresh-row id ref_id action none input h = (h.plain, tt, h.succeeds, refl)
  IsFresh-row id ref_id action (some ds) input h =
      (h.plain, h.deps, h.succeeds, fresh_status (length ds == 0))

  IsFresh-rows :
      (first : ℕ) (some_dtos : List TaskDto)
      → All (IsRunnable ext registry rank (refs dtos)) some_dtos
      → All IsFresh (rows_of new_id e first some_dtos)
  unfolding to_tasks
  IsFresh-rows first [] h = tt
  IsFresh-rows first (dto ∷ some_dtos) h = (
    IsFresh-row (new_id first) dto.ref_id dto.action dto.dependencies dto.input h.0,
    IsFresh-rows (first + 1) some_dtos h.1,
  )

  module _ (distinct : IsDistinct (refs dtos))
      (tasks : All (IsRunnable ext registry rank (refs dtos)) dtos) where
    abbrev pub rows : List Task
    rows = rows_of new_id e 1 dtos

    abbrev pub roots : List String
    roots = map ext.uuid_string (root_ids new_id 1 dtos)

    abbrev IsNew : Task → Type 0
    IsNew t = IsPlanned ext registry plan t × (is_completed t.status ≡ false)

    abbrev IsRoot : Task → Type 0
    IsRoot t = occurs t.id (root_ids new_id 1 dtos) ≡ one_if (is_zero t.in_degree)

    planned : IsKeyed rows → All IsNew rows
    planned keyed =
        let known =
          All-zip _ {R = λ t. (plan.number t.ref_id ≡ t.id) × (plan.name t.id ≡ t.ref_id)}
            (λ t number name. (number, name)) rows (rows-number new_id e 1 dtos distinct)
            (rows-name new_id e 1 dtos keyed) in
        All-zip _ {R = IsNew}
          (λ t known fresh. (
            record {
              number = known.0;
              name = known.1;
              plain = fresh.0;
              deps = fresh.1;
              succeeds = fresh.2;
            },
            fresh.3,
          ))
          rows known (IsFresh-rows 1 dtos tasks)

    pub tracked : IsKeyed rows → AreTracked ext registry plan [] roots [] rows
    tracked keyed =
        let once =
          All-zip _ {R = λ t. IsNew t × IsRoot t} (λ t p root. (p, root)) rows (planned keyed)
            (rows-root new_id e 1 dtos keyed) in
        let counted =
          to_tasks-Counted new_id e 1 dtos
            (All-implies _ (λ dto h. IsRunnable.distinct h) dtos tasks) in
        All-zip _
          (λ t known count mine.
            let waits = listed-map ext doc t.id (root_ids new_id 1 dtos) in
            let all = known.1 in
            record {
              planned = known.0.0;
              counted = count mine;
              once = omega (arith, waits, all);
              done = ap one_if (sym known.0.1);
            })
          rows once counted

    pub fresh-left : (ts : List Task) → sum (left ext registry plan []) ts ≤ length ts + length ts
    fresh-left [] = omega arith
    fresh-left (t ∷ ts) =
        let rest = fresh-left ts in
        elim (Bool-cases (t.execution_id == e)) [
          | inl mine ↦ rw mine (omega (arith, rest, one_if_le (not (is_completed t.status))))
          | inr other ↦ rw other (omega (arith, rest))
        ]

    module _ (w : World) (others : All (λ t. t.execution_id ≢ e) w.tasks) where
      pub other-left :
          sum (left ext registry plan []) (w.tasks ++ rows) ≡ sum (left ext registry plan []) rows
      other-left = sum-append-zero (left ext registry plan []) w.tasks rows (
          All-implies _
            (λ t other.
              let away : (t.execution_id == e) ≡ false = ground (arith, other) in rw away refl)
            w.tasks others)
