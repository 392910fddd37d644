-- ===== src/System/Holding.antt =====
-- How a thread comes to hold a claim.
use go_tempo.Base.{
  ℕ, ◌+◌, ◌≤◌, ◌≡◌, ◌≢◌, ◌⊎◌, refl, sym, ap, Bool, true, false, List, [], ◌∷◌, String, none, some,
  if◌then◌else◌, arith, All, Bool-cases, Option-cases, inl, inr,
}
use go_tempo.Domain.{Task, can_retry}
use go_tempo.External.{External}
use go_tempo.World.{World, M, Error, Result-cases, ok, err, replies, attempt, ◌>>=◌, worker_retries}
use go_tempo.Repository.Rows.{count_where, has_version}
use go_tempo.Repository.Tasks.{claim_task, find_task_by_id, mark_skipped, increment_retry_count}
use go_tempo.Repository.Locks.{claim_task-eq-ok}
use go_tempo.Repository.Retries.{raised}
use go_tempo.Redis.Queue.{pop}
use go_tempo.Worker.Registry.{Context, lookup}
use go_tempo.Worker.Process.{Worker}
use go_tempo.Worker.Phases.{
  Phase, idle, popped, fetched, skipped, claimed, rejecting, rejected, completing, retrying, acted,
  failing, gone, advance, after_skip, after_claim,
}
use go_tempo.System.Invariant.{holding, known_task}
use go_tempo.System.Threads.{reached}

-- A row has the version that the claim asks for.
abbrev pub Found : Task → World → Type 0
Found task w = count_where (has_version task.id task.version) w.tasks ≢ 0

-- Where a claim that is held after a step comes from.
abbrev pub Source : Phase → World → Task → Type 0
Source phase w t =
    (holding phase ≡ some t)
    ⊎ ((task : Task) × (phase ≡ fetched task) × (t ≡ raised task) × Found task w)

pub holding-known_task :
    (phase : Phase) (t : Task) → holding phase ≡ some t → known_task phase ≡ some t
holding-known_task (fetched task) t h = cc
holding-known_task idle t h = h
holding-known_task (popped task_id) t h = h
holding-known_task (skipped task) t h = h
holding-known_task (claimed task) t h = h
holding-known_task (rejecting task) t h = h
holding-known_task (rejected task) t h = h
holding-known_task (completing task) t h = h
holding-known_task (retrying task) t h = h
holding-known_task (acted task r) t h = h
holding-known_task (failing task e) t h = h
holding-known_task (gone task e) t h = h

-- What is known of all rows of a task bounds the version of a row that is found.
pub Found-le :
    (id v n : ℕ) (ts : List Task)
    → All (λ r. r.id ≡ id → n ≤ r.version) ts
    → count_where (has_version id v) ts ≢ 0
    → n ≤ v
unfolding count_where
Found-le id v n [] all found = absurd (found refl)
Found-le id v n (t ∷ ts) all found = elim (Bool-cases (has_version id v t)) [
  | inl hit ↦
      let same_id : t.id ≡ id = ground arith in
      let same_version : t.version ≡ v = ground arith in omega (arith, all.0 same_id)
  | inr miss ↦ Found-le id v n ts all.1 (λ e. found (ground (arith, e, miss)))
]

module _ (ext : External) (worker : Worker) (ctx : Context) where
  abbrev Reaches : M Phase → World → Task → Type 0
  Reaches m w t = holding (reached (m w).0) ≡ some t

  idle-Source : (w : World) (t : Task) → Reaches (advance ext worker ctx idle) w t → Source idle w t
  unfolding advance replies
  idle-Source w t h = elim (Result-cases (pop worker.queue w).0) [
    | inl (task_id, found) ↦ inl (rw found at h)
    | inr (e, nothing) ↦ inl (rw nothing at h)
  ]

  popped-Source :
      (task_id : String) (w : World) (t : Task)
      → Reaches (advance ext worker ctx (popped task_id)) w t
      → Source (popped task_id) w t
  unfolding advance replies
  popped-Source task_id w t h = elim (Option-cases (ext.uuid_parse task_id)) [
    | inl invalid ↦ inl (rw invalid at h)
    | inr (id, valid) ↦ elim (Result-cases (find_task_by_id id w).0) [
      | inl (task, found) ↦ inl (rw (valid, found) at h)
      | inr (e, missing) ↦ inl (rw (valid, missing) at h)
    ]
  ]

  fetched-Source :
      (b : Bool) (task : Task) (w : World) (t : Task)
      → Reaches
          (if b
            then (attempt (mark_skipped ext task.id) >>= after_skip ext worker task)
            else (attempt (claim_task task.id worker.worker_id task.version)
                >>= after_claim ext worker task))
          w
          t
      → Source (fetched task) w t
  unfolding replies
  fetched-Source true task w t h = elim (Result-cases (mark_skipped ext task.id w).0) [
    | inl (a, done) ↦ inl (rw done at h)
    | inr (e, lost) ↦ inl (rw lost at h)
  ]
  fetched-Source false task w t h =
      elim (Result-cases (claim_task task.id worker.worker_id task.version w).0) [
        | inl (a, done) ↦
            let held : some (raised task) ≡ some t = rw done at h in
            let same : raised task ≡ t = cc in
            let (after, found) =
              claim_task-eq-ok task.id task.version worker.worker_id w _
                (ap (λ r. (r, (claim_task task.id worker.worker_id task.version w).1)) done) in
            inr (task, refl, sym same, found)
        | inr (e, lost) ↦ inl (rw lost at h)
      ]

  claimed-Source :
      (task : Task) (w : World) (t : Task)
      → Reaches (advance ext worker ctx (claimed task)) w t
      → Source (claimed task) w t
  unfolding advance replies
  claimed-Source task w t h = elim (Option-cases (lookup worker.registry task.action)) [
    | inl unknown ↦ inl (rw unknown at h)
    | inr (handler, known) ↦ inl (rw known at h)
  ]

  failed-Source :
      (task : Task) (e : Error) (w : World) (t : Task)
      → Reaches (advance ext worker ctx (acted task (err e))) w t
      → Source (acted task (err e)) w t
  unfolding advance replies
  failed-Source task e w t h = elim (Bool-cases (can_retry task task.max_retries)) [
    | inl again ↦
        let v : World = record w {
          metrics = worker_retries task.action (task.retry_count + 1) ∷ w.metrics;
        } in
        elim (Result-cases (increment_retry_count task.id task.version v).0) [
          | inl (a, done) ↦ absurd (let no : none ≡ some t = rw (again, done) at h in cc)
          | inr (x, lost) ↦ absurd (let no : none ≡ some t = rw (again, lost) at h in cc)
        ]
    | inr never ↦ absurd (let no : none ≡ some t = rw never at h in cc)
  ]

  pub advance-Source :
      (phase : Phase) (w : World) (t : Task)
      → Reaches (advance ext worker ctx phase) w t
      → Source phase w t
  unfolding advance replies
  advance-Source idle w t h = idle-Source w t h
  advance-Source (popped task_id) w t h = popped-Source task_id w t h
  advance-Source (fetched task) w t h = fetched-Source task.skip_hint task w t h
  advance-Source (skipped task) w t h = inl h
  advance-Source (claimed task) w t h = claimed-Source task w t h
  advance-Source (rejecting task) w t h = inl h
  advance-Source (rejected task) w t h = inl h
  advance-Source (acted task (ok output)) w t h = cc
  advance-Source (acted task (err e)) w t h = failed-Source task e w t h
  advance-Source (completing task) w t h = inl h
  advance-Source (retrying task) w t h = inl h
  advance-Source (failing task e) w t h = inl h
  advance-Source (gone task e) w t h = inl h
