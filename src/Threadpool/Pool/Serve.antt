-- ===== src/Threadpool/Pool/Serve.antt =====
-- A worker of ThreadPool.h on a running pool, from its start on: what it sees, and the tasks it serves.
use server_dev_lib.Base.{
  ℕ, ◌≡◌, refl, false, Option, none, some, List, [], ◌∷◌, ◌++◌, append-nil, append_assoc, arith,
}
use server_dev_lib.Base.Map.{lookup, lookup-update, lookup-emplace, nat_eq}
use server_dev_lib.Threadpool.Pool.{
  Pool, Act, Place, Stat, step, run, create_thread, publish_worker, find_self, test_loop,
  mark_empty, take_task, finish_task,
}

-- What a thread `i` and its entry look like on a running pool.
record Sees (p : Pool) (i : ℕ) (at : Place) (s : Option Stat) (ts log ran : List ℕ) : Type 0 where
  at_place : p.place i ≡ at
  entry : lookup i p.stat ≡ s
  going : p.stop ≡ false
  queue : p.tasks ≡ ts
  served : p.taken ≡ log
  ready : p.done ≡ ran

module _ {p : Pool} {i : ℕ} {ts log ran : List ℕ} where
  create-Sees :
      Sees p i Place.absent none ts log ran
      → Sees (step p (Act.create i)) i Place.starting none ts log ran
  unfolding step create_thread
  create-Sees v = ground arith

  publish-Sees :
      Sees p i Place.starting none ts log ran
      → Sees (step p (Act.publish i)) i Place.starting (some Stat.active) ts log ran
  unfolding step publish_worker
  publish-Sees v = ground (arith, lookup-emplace i i Stat.active p.stat)

  find-Sees :
      {s : Stat}
      → Sees p i Place.starting (some s) ts log ran
      → Sees (step p (Act.find i)) i Place.testing (some s) ts log ran
  unfolding step find_self
  find-Sees v = ground arith

  test-Sees :
      Sees p i Place.testing (some Stat.active) ts log ran
      → Sees (step p (Act.test i)) i Place.entered (some Stat.active) ts log ran
  unfolding step test_loop
  test-Sees v = ground arith

  mark-Sees :
      {s : Stat}
      → Sees p i Place.entered (some s) ts log ran
      → Sees (step p (Act.mark i)) i Place.waiting (some Stat.empty) ts log ran
  unfolding step mark_empty
  mark-Sees v = ground (arith, lookup-update i i (λ t. Stat.empty) p.stat)

  take-Sees :
      {t : ℕ} {rest : List ℕ}
      → ts ≡ t ∷ rest
      → Sees p i Place.waiting (some Stat.empty) ts log ran
      → Sees (step p (Act.take i)) i (Place.running t) (some Stat.active) rest (log ++ (t ∷ [])) ran
  unfolding step take_task
  take-Sees e v = ground (arith, lookup-update i i (λ t. Stat.active) p.stat)

  finish-Sees :
      {t : ℕ} {s : Stat}
      → Sees p i (Place.running t) (some s) ts log ran
      → Sees (step p (Act.finish i)) i Place.testing (some s) ts log (ran ++ (t ∷ []))
  unfolding step finish_task
  finish-Sees v = ground arith

-- The worker in its wait, until the queue is empty: it takes the front, runs it and comes back.
abbrev pub drain_acts : ℕ → List ℕ → List Act
drain_acts i [] = []
drain_acts i (t ∷ ts) = Act.take i ∷ Act.finish i ∷ Act.test i ∷ Act.mark i ∷ drain_acts i ts

drain-Sees :
    (p : Pool) (i : ℕ) (ts log ran : List ℕ)
    → Sees p i Place.waiting (some Stat.empty) ts log ran
    → Sees (run p (drain_acts i ts)) i Place.waiting (some Stat.empty) [] (log ++ ts) (ran ++ ts)
unfolding run
drain-Sees p i [] log ran v = rw (append-nil log, append-nil ran) v
drain-Sees p i (t ∷ ts) log ran v =
    let p' = step (step (step (step p (Act.take i)) (Act.finish i)) (Act.test i)) (Act.mark i) in
    let v' = mark-Sees (test-Sees (finish-Sees (take-Sees refl v))) in
    rw (← append_assoc log (t ∷ []) ts, ← append_assoc ran (t ∷ []) ts)
      (drain-Sees p' i ts (log ++ (t ∷ [])) (ran ++ (t ∷ [])) v')

-- A new worker whose entry is in the map before it looks itself up, on a running pool: with a take, a
-- run and a turn of the loop for each task that is queued, it takes and runs all of them, oldest first,
-- their futures are ready, and it is in its wait on an empty queue, with its entry EMPTY.
pub worker_drains :
    (p : Pool) (i : ℕ)
    → p.stop ≡ false
    → p.place i ≡ Place.absent
    → lookup i p.stat ≡ none
    → let p' = run p (
        Act.create i
        ∷ Act.publish i
        ∷ Act.find i
        ∷ Act.test i
        ∷ Act.mark i
        ∷ drain_acts i p.tasks) in
      (p'.place i ≡ Place.waiting)
      × (lookup i p'.stat ≡ some Stat.empty)
      × (p'.tasks ≡ [])
      × (p'.taken ≡ p.taken ++ p.tasks)
      × (p'.done ≡ p.done ++ p.tasks)
unfolding run
worker_drains p i going at unknown = (v.at_place, v.entry, v.queue, v.served, v.ready)
  where
    start : Sees p i Place.absent none p.tasks p.taken p.done
    start = record {
      at_place = at;
      entry = unknown;
      going = going;
      queue = refl;
      served = refl;
      ready = refl;
    }

    waits : Pool
    waits =
        step (step (step (step (step p (Act.create i)) (Act.publish i)) (Act.find i)) (Act.test i))
          (Act.mark i)

    v :
        Sees
          (run waits (drain_acts i p.tasks))
          i
          Place.waiting
          (some Stat.empty)
          []
          (p.taken ++ p.tasks)
          (p.done ++ p.tasks)
    v =
        drain-Sees waits i p.tasks p.taken p.done
          (mark-Sees (test-Sees (find-Sees (publish-Sees (create-Sees start)))))
