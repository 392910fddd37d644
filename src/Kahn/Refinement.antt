-- ===== src/Kahn/Refinement.antt =====
-- The two UPDATE queries of the coordinator against the ledger.
use go_tempo.Base.{
  ℕ, ◌≡◌, refl, ◌∙◌, ap, Bool, true, false, ◌&&◌, ◌||◌, List, [], ◌∷◌, String, ◌==◌, if◌then◌else◌,
  has, length, IsDistinct, arith, Bool-cases, inl, inr, All, sub_ℕ, pred_ℤ, is_zero, pred_ℤ-sub_ℕ,
  is_zero-sub_ℕ, ==_iff,
}
use go_tempo.Domain.{Task, Json, absent, null_value, strings, raw}
use go_tempo.External.{External, Documented, IsPlain, dep_param}
use go_tempo.World.{World, M, ok, database_error, replies, service-calm}
use go_tempo.Repository.Rows.{update_where}
use go_tempo.Repository.Dag.{
  decrement_row, taint_row, ready_ids, depends_on, decrement_query, decrement_and_get_ready_tasks,
  decrement_and_set_skip_hint,
}
use go_tempo.Kahn.Ends.{Ledger, all_ended, tainted, hits, IsOnce}
use go_tempo.Kahn.Counting.{hits-all_ended}

-- The texts that a column of dependencies lists.
abbrev pub deps_of : Json → List String
deps_of (strings ds) = ds
deps_of absent = []
deps_of null_value = []
deps_of (raw text) = []

-- The columns that the mapper writes: an array of texts, or nothing.
abbrev pub IsArray : Json → Type 0
IsArray (raw text) = ⊥
IsArray _ = Unit

-- The counter and the skip hint of a row agree with the ledger.
pub record IsCounted (ledger : Ledger) (t : Task) : Type 0 where
  pub array : IsArray t.dependencies
  pub distinct : IsDistinct (deps_of t.dependencies)
  pub degree :
      t.in_degree ≡ sub_ℕ (length (deps_of t.dependencies)) (hits (deps_of t.dependencies) ledger)
  pub hint : t.skip_hint ≡ tainted (deps_of t.dependencies) ledger

-- All rows of the execution do.
abbrev pub Counted : (execution_id : ℕ) → Ledger → List Task → Type 0
Counted execution_id ledger = All (λ t. t.execution_id ≡ execution_id → IsCounted ledger t)

-- `ref_id` is the last dependency of the row to end.
abbrev pub completes_deps : (ref_id : String) → Ledger → Task → Bool
completes_deps ref_id ledger t =
    has ref_id (deps_of t.dependencies) && all_ended (deps_of t.dependencies) ledger

-- The rows of the execution for which that is so.
abbrev pub now_ready : (execution_id : ℕ) (ref_id : String) → Ledger → List Task → List ℕ
now_ready execution_id ref_id ledger [] = []
now_ready execution_id ref_id ledger (t ∷ ts) =
    if t.execution_id == execution_id && completes_deps ref_id ledger t
    then t.id ∷ now_ready execution_id ref_id ledger ts
    else now_ready execution_id ref_id ledger ts

-- The query that an event runs, by whether the task failed or was skipped.
abbrev pub end_query : External → Bool → (execution_id : ℕ) (ref_id : String) → M (List ℕ)
end_query ext true = decrement_and_set_skip_hint ext
end_query ext false = decrement_and_get_ready_tasks ext

abbrev pub end_row : Bool → Task → Task
end_row true = taint_row
end_row false = decrement_row

end_row-in_degree : (bad : Bool) (t : Task) → (end_row bad t).in_degree ≡ pred_ℤ t.in_degree
unfolding decrement_row taint_row
end_row-in_degree true t = refl
end_row-in_degree false t = refl

end_row-skip_hint : (bad : Bool) (t : Task) → (end_row bad t).skip_hint ≡ (bad || t.skip_hint)
unfolding decrement_row taint_row
end_row-skip_hint true t = refl
end_row-skip_hint false t = refl

end_row-dependencies : (bad : Bool) (t : Task) → (end_row bad t).dependencies ≡ t.dependencies
unfolding decrement_row taint_row
end_row-dependencies true t = refl
end_row-dependencies false t = refl

end_row-execution_id : (bad : Bool) (t : Task) → (end_row bad t).execution_id ≡ t.execution_id
unfolding decrement_row taint_row
end_row-execution_id true t = refl
end_row-execution_id false t = refl

module _ (r : String) (bad : Bool) (ledger : Ledger) (once : IsOnce ((r, bad) ∷ ledger)) where
  row-in_degree :
      (t : Task)
      → IsCounted ledger t
      → has r (deps_of t.dependencies) ≡ true
      → (end_row bad t).in_degree
        ≡ sub_ℕ
            (length (deps_of t.dependencies))
            (hits (deps_of t.dependencies) ((r, bad) ∷ ledger))
  row-in_degree t c h =
      let ds = deps_of t.dependencies in
      rw (end_row-in_degree bad t, c.degree, h, pred_ℤ-sub_ℕ (length ds) (hits ds ledger))
        (ap (sub_ℕ (length ds)) (omega arith))

  -- A row that depends on the task is ready exactly if all of its dependencies have ended.
  row-is_zero :
      (t : Task)
      → IsCounted ledger t
      → has r (deps_of t.dependencies) ≡ true
      → is_zero (end_row bad t).in_degree ≡ all_ended (deps_of t.dependencies) ((r, bad) ∷ ledger)
  row-is_zero t c h =
      let ds = deps_of t.dependencies in
      let es = (r, bad) ∷ ledger in
      ap is_zero (row-in_degree t c h)
      ∙ is_zero-sub_ℕ (length ds) (hits ds es)
      ∙ hits-all_ended ds es c.distinct once

  miss-IsCounted :
      (t : Task)
      → IsCounted ledger t
      → has r (deps_of t.dependencies) ≡ false
      → IsCounted ((r, bad) ∷ ledger) t
  miss-IsCounted t c h = record {
    array = c.array;
    distinct = c.distinct;
    degree = rw h (c.degree ∙ ap (sub_ℕ (length (deps_of t.dependencies))) (omega arith));
    hint = ground (arith, c.hint, h);
  }

hit-IsCounted :
    (r : String) (bad : Bool) (ledger : Ledger) (once : IsOnce ((r, bad) ∷ ledger)) (t : Task)
    → IsCounted ledger t
    → has r (deps_of t.dependencies) ≡ true
    → IsCounted ((r, bad) ∷ ledger) (end_row bad t)
unfolding decrement_row taint_row
hit-IsCounted r true ledger once t c h = record {
  array = c.array;
  distinct = c.distinct;
  degree = row-in_degree r true ledger once t c h;
  hint = rw h;
}
hit-IsCounted r false ledger once t c h = record {
  array = c.array;
  distinct = c.distinct;
  degree = row-in_degree r false ledger once t c h;
  hint = c.hint;
}

module _ (ext : External) (doc : Documented ext) (execution_id : ℕ) (r : String) (bad : Bool)
    (ledger : Ledger) (plain : IsPlain r) (once : IsOnce ((r, bad) ∷ ledger)) where
  contains-deps_of : (j : Json) → IsArray j → ext.jsonb_contains j (dep_param r) ≡ has r (deps_of j)
  contains-deps_of absent a = doc.contains-absent r
  contains-deps_of null_value a = doc.contains-null r
  contains-deps_of (strings ds) a = doc.contains-strings ds r plain
  contains-deps_of (raw text) a = absurd a

  row-depends_on :
      (t : Task)
      → (t.execution_id ≡ execution_id → IsCounted ledger t)
      → depends_on ext execution_id r t
        ≡ (t.execution_id == execution_id && has r (deps_of t.dependencies))
  unfolding depends_on
  row-depends_on t c = elim (Bool-cases (t.execution_id == execution_id)) [
    | inl mine ↦
        rw mine
          (contains-deps_of t.dependencies (c ((==_iff t.execution_id execution_id).0 mine)).array)
    | inr other ↦ rw other
  ]

  table-Counted :
      (ts : List Task)
      → Counted execution_id ledger ts
      → Counted execution_id
          ((r, bad) ∷ ledger)
          (update_where (depends_on ext execution_id r) (end_row bad) ts)
  unfolding update_where
  table-Counted [] c = tt
  table-Counted (t ∷ ts) c = (head, table-Counted ts c.1)
    where
      head :
          (if depends_on ext execution_id r t then end_row bad t else t).execution_id ≡ execution_id
          → IsCounted
              ((r, bad) ∷ ledger)
              (if depends_on ext execution_id r t then end_row bad t else t)
      head = elim (Bool-cases (depends_on ext execution_id r t)) [
        | inl hit ↦ rw hit (λ e.
            let mine : t.execution_id ≡ execution_id = rw (end_row-execution_id bad t) at e in
            hit-IsCounted r bad ledger once t (c.0 mine) (ground (arith, row-depends_on t c.0)))
        | inr miss ↦
            rw miss (λ e.
              miss-IsCounted r bad ledger once t (c.0 e) (ground (arith, row-depends_on t c.0)))
      ]

  head-is_zero :
      (t : Task)
      → (t.execution_id ≡ execution_id → IsCounted ledger t)
      → (t.execution_id == execution_id
          && (has r (deps_of t.dependencies) && is_zero (end_row bad t).in_degree))
        ≡ (t.execution_id == execution_id && completes_deps r ((r, bad) ∷ ledger) t)
  head-is_zero t c = elim (Bool-cases (t.execution_id == execution_id)) [
    | inl mine ↦ elim (Bool-cases (has r (deps_of t.dependencies))) [
      | inl hit ↦
          rw (mine, hit)
            (row-is_zero r bad ledger once t (c ((==_iff t.execution_id execution_id).0 mine)) hit)
      | inr miss ↦ rw (mine, miss)
    ]
    | inr other ↦ rw other
  ]

  table-ready :
      (ts : List Task)
      → Counted execution_id ledger ts
      → ready_ids (depends_on ext execution_id r) (end_row bad) ts
        ≡ now_ready execution_id r ((r, bad) ∷ ledger) ts
  unfolding ready_ids
  table-ready [] c = refl
  table-ready (t ∷ ts) c =
      ground (arith, row-depends_on t c.0, head-is_zero t c.0, table-ready ts c.1)

module _ (ext : External) (doc : Documented ext) (execution_id : ℕ) (r : String) (ledger : Ledger)
    (plain : IsPlain r) (w : World) (counted : Counted execution_id ledger w.tasks)
    (calm : w.outages ≡ []) where
  -- A completed or terminated task is one entry more of the ledger: the query returns exactly the
  -- rows whose last dependency it was, and leaves all counters and skip hints of the execution in
  -- agreement with the ledger, if they were so before, the task had not ended before, its name needs
  -- no escape in JSON, and the database answers.
  pub end_query-refines :
      (bad : Bool)
      → IsOnce ((r, bad) ∷ ledger)
      → ((end_query ext bad execution_id r w).0
          ≡ ok (now_ready execution_id r ((r, bad) ∷ ledger) w.tasks))
        × Counted execution_id ((r, bad) ∷ ledger) (end_query ext bad execution_id r w).1.tasks
  unfolding decrement_and_get_ready_tasks decrement_and_set_skip_hint decrement_query replies
  end_query-refines true once =
      rw (service-calm database_error w calm, doc.valid-dep r plain)
        (
          ap ok (table-ready ext doc execution_id r true ledger plain once w.tasks counted),
          table-Counted ext doc execution_id r true ledger plain once w.tasks counted,
        )
  end_query-refines false once =
      rw (service-calm database_error w calm, doc.valid-dep r plain)
        (
          ap ok (table-ready ext doc execution_id r false ledger plain once w.tasks counted),
          table-Counted ext doc execution_id r false ledger plain once w.tasks counted,
        )
