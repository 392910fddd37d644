-- ===== src/Redis/Fifo.antt =====
-- The order of a list of Redis.
use go_tempo.Base.{◌≡◌, refl, sym, List, [], ◌∷◌, ◌++◌, String, ◌∙◌}
use mathlib.Core.List.{append_assoc, append-nil}
use go_tempo.World.{World, M, pure, ok, ◌>>=◌, ◌>>◌, service-calm, replies, redis_error}
use go_tempo.Redis.Queue.{RedisQueue, main_queue, retry_queue, items, push, pop, take_front}

abbrev pub push_all : RedisQueue → List String → M (Unit {0})
push_all q [] = pure tt
push_all q (id ∷ ids) = push q id >> push_all q ids

-- As many calls of Pop as the list is long.
abbrev pub pop_each : RedisQueue → List String → M (List String)
pop_each q [] = pure []
pop_each q (_ ∷ later) = do id ← pop q; ids ← pop_each q later; pure (id ∷ ids)

push_all-items :
    (q : RedisQueue) (ids : List String) (w : World)
    → w.outages ≡ []
    → ((push_all q ids w).0 ≡ ok tt)
      × (items q (push_all q ids w).1 ≡ items q w ++ ids)
      × ((push_all q ids w).1.outages ≡ [])
unfolding push replies
push_all-items main_queue [] w calm = (refl, sym (append-nil w.pending), calm)
push_all-items retry_queue [] w calm = (refl, sym (append-nil w.retry), calm)
push_all-items main_queue (id ∷ ids) w calm = rw (service-calm redis_error w calm) (
    let rest = push_all-items main_queue ids _ calm in
    (rest.0, rest.1 ∙ append_assoc w.pending (id ∷ []) ids, rest.2))
push_all-items retry_queue (id ∷ ids) w calm = rw (service-calm redis_error w calm) (
    let rest = push_all-items retry_queue ids _ calm in
    (rest.0, rest.1 ∙ append_assoc w.retry (id ∷ []) ids, rest.2))

pop_each-items :
    (q : RedisQueue) (ids later : List String) (w : World)
    → w.outages ≡ []
    → items q w ≡ ids ++ later
    → ((pop_each q ids w).0 ≡ ok ids) × (items q (pop_each q ids w).1 ≡ later)
unfolding pop take_front replies
pop_each-items q [] later w calm e = (refl, e)
pop_each-items main_queue (id ∷ ids) later w calm e =
    rw (service-calm redis_error w calm, e)
      (let rest =
          pop_each-items main_queue ids later (record w { pending = ids ++ later }) calm refl in
        rw (rest.0) (refl, rest.1))
pop_each-items retry_queue (id ∷ ids) later w calm e =
    rw (service-calm redis_error w calm, e)
      (let rest =
          pop_each-items retry_queue ids later (record w { retry = ids ++ later }) calm refl in
        rw (rest.0) (refl, rest.1))

-- With a Redis that answers, ids that are pushed on a list and then popped come out behind those
-- that were in it, all of them in the order in which they were pushed, and leave it empty.
pub pop_each-push_all :
    (q : RedisQueue) (ids : List String) (w : World)
    → w.outages ≡ []
    → (((push_all q ids >> pop_each q (items q w ++ ids)) w).0 ≡ ok (items q w ++ ids))
      × (items q ((push_all q ids >> pop_each q (items q w ++ ids)) w).1 ≡ [])
unfolding replies
pop_each-push_all q ids w calm =
    let pushed = push_all-items q ids w calm in
    rw (pushed.0) (
      pop_each-items q (items q w ++ ids) [] (push_all q ids w).1 pushed.2
        (pushed.1 ∙ sym (append-nil (items q w ++ ids))))
