-- ===== src/Threadpool/Pool/Shutdown.antt =====
-- `Shutdown` of ThreadPool.h against workers at each place.
use server_dev_lib.Base.{ℕ, ◌≡◌, refl, ap, true, false, some, List, [], ◌∷◌, arith}
use server_dev_lib.Base.Map.{lookup, lookup-update, map_option, nat_eq}
use server_dev_lib.Threadpool.Pool.{
  Pool, Act, Place, Stat, step, run, mark_empty, take_task, shutdown_begin, shutdown_locked,
  all_dead, is_dead,
}

pub lookup-all_dead :
    (i : ℕ) (m : List (ℕ × Stat)) → lookup i (all_dead m) ≡ map_option (λ s. Stat.dead) (lookup i m)
unfolding lookup all_dead
lookup-all_dead i [] = refl
lookup-all_dead i ((j, s) ∷ m) = ground (arith, lookup-all_dead i m)

abbrev pub shut : Pool → Pool
shut p = record p { stop = true; tasks = []; stat = all_dead p.stat; closing = false }

shutdown_run :
    (p : Pool) (acts : List Act)
    → p.stop ≡ false
    → run p (Act.shutdown_flag ∷ Act.shutdown_clear ∷ acts) ≡ run (shut p) acts
unfolding run step shutdown_begin shutdown_locked
shutdown_run p acts going = rw (going, shutdown_begin, shutdown_locked) refl

pub locked_run :
    (p : Pool) (acts : List Act)
    → p.stop ≡ true
    → p.closing ≡ true
    → run p (Act.shutdown_clear ∷ acts) ≡ run (shut p) acts
unfolding run step shutdown_locked
locked_run p acts stopping locking =
    ap (λ q. run q acts)
      (rw (locking, shutdown_locked) (ap (λ b. record (shut p) { stop = b }) stopping))

-- The queue of a running pool is empty and a worker waits, not marked dead: if it looks at the
-- predicate between `_stop = true` and the lock of `Shutdown`, it takes the front of an empty queue.
shutdown_breaks_waiter :
    (p : Pool) (i : ℕ)
    → p.stop ≡ false
    → p.tasks ≡ []
    → p.place i ≡ Place.waiting
    → is_dead (lookup i p.stat) ≡ false
    → (run p (Act.shutdown_flag ∷ Act.take i ∷ [])).place i ≡ Place.broken
unfolding run step shutdown_begin take_task
shutdown_breaks_waiter p i going none_left at alive = ground arith

-- A whole `Shutdown` between a worker's test of its state and its `it->second = EMPTY`: the worker
-- overwrites DEAD and takes the front of an empty queue.
shutdown_breaks_entered :
    (p : Pool) (i : ℕ) (s : Stat)
    → p.stop ≡ false
    → p.place i ≡ Place.entered
    → lookup i p.stat ≡ some s
    → (run p (Act.shutdown_flag ∷ Act.shutdown_clear ∷ Act.mark i ∷ Act.take i ∷ [])).place i
      ≡ Place.broken
unfolding run step mark_empty take_task
shutdown_breaks_entered p i s going at known =
    rw (shutdown_run p (Act.mark i ∷ Act.take i ∷ []) going) (
      ground
        (arith, lookup-all_dead i p.stat, lookup-update i i (λ t. Stat.empty) (all_dead p.stat)))
