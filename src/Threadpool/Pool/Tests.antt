-- ===== src/Threadpool/Pool/Tests.antt =====
-- Tests of ThreadPool.h, and its theorems at inputs that meet their hypotheses.
use server_dev_lib.Base.{
  ℕ, ◌≡◌, ◌≢◌, refl, true, false, some, List, [], ◌∷◌, ◌++◌, arith, ◌==◌, if◌then◌else◌,
}
use server_dev_lib.Base.Map.{lookup, update, emplace, nat_eq}
use server_dev_lib.Threadpool.Pool.{
  Pool, Act, Place, Stat, step, run, init, init_acts, create_thread, publish_worker, find_self,
  test_loop, mark_empty, take_task, finish_task, enqueue_task, shutdown_begin,
}
use server_dev_lib.Threadpool.Pool.Order.{run_fifo}
use server_dev_lib.Threadpool.Pool.Serve.{drain_acts, worker_drains}
use server_dev_lib.Threadpool.Pool.Join.{joins, turns, shutdown_joins}
use server_dev_lib.Threadpool.Pool.Start.{lost_worker_starves, run_no_break}

-- A pool whose only worker, number 0, is at the given place, with the given queue.
abbrev one_worker : Place → Stat → List ℕ → Pool
one_worker at s ts = record {
  workers = 0 ∷ [];
  stat = (0, s) ∷ [];
  tasks = ts;
  stop = false;
  closing = false;
  place = λ i. if i == 0 then at else Place.absent;
  taken = [];
  done = [];
}

abbrev no_worker : List ℕ → Pool
no_worker ts = record {
  workers = [];
  stat = [];
  tasks = ts;
  stop = false;
  closing = false;
  place = λ i. Place.absent;
  taken = [];
  done = [];
}

abbrev two_rounds : List Act
two_rounds =
    Act.enqueue 7
    ∷ Act.enqueue 8
    ∷ Act.find 0
    ∷ Act.test 0
    ∷ Act.mark 0
    ∷ Act.take 0
    ∷ Act.finish 0
    ∷ Act.test 0
    ∷ Act.mark 0
    ∷ Act.take 0
    ∷ []

pool_runs : (run init (init_acts 1 0 ++ two_rounds)).taken ≡ 7 ∷ 8 ∷ []
unfolding run step init init_acts create_thread publish_worker find_self test_loop mark_empty
    take_task finish_task enqueue_task lookup update emplace
pool_runs = refl

run_fifo_example :
    (run (one_worker Place.waiting Stat.empty (4 ∷ [])) (Act.take 0 ∷ Act.enqueue 5 ∷ [])).taken
      ++ (run
          (one_worker Place.waiting Stat.empty (4 ∷ []))
          (Act.take 0 ∷ Act.enqueue 5 ∷ [])).tasks
    ≡ 4 ∷ 5 ∷ []
run_fifo_example =
    run_fifo (one_worker Place.waiting Stat.empty (4 ∷ [])) (Act.take 0 ∷ Act.enqueue 5 ∷ [])
      ((λ e. cc), ((λ e. cc), tt))

-- The worker is in a task when the pool is shut down, and ends it in front of the lock; then a task is
-- enqueued.
shutdown_joins_example :
    let p = one_worker (Place.running 4) Stat.active (5 ∷ []) in
    let p1 = run p (Act.shutdown_flag ∷ Act.finish 0 ∷ []) in
    ((run p1 (Act.shutdown_clear ∷ [])).tasks ≡ [])
    × (joins
          (run p (
            Act.shutdown_flag
            ∷ Act.finish 0
            ∷ Act.shutdown_clear
            ∷ Act.enqueue 6
            ∷ Act.test 0
            ∷ []))
          (0 ∷ [])
        ≡ true)
unfolding lookup turns run step finish_task enqueue_task shutdown_begin test_loop
shutdown_joins_example =
    shutdown_joins (one_worker (Place.running 4) Stat.active (5 ∷ [])) (Act.finish 0 ∷ [])
      (Act.enqueue 6 ∷ Act.test 0 ∷ []) refl refl ((Stat.active, refl), refl, omega arith, tt)

worker_drains_example :
    let p' = run (no_worker (4 ∷ 5 ∷ [])) (
      Act.create 0
      ∷ Act.publish 0
      ∷ Act.find 0
      ∷ Act.test 0
      ∷ Act.mark 0
      ∷ drain_acts 0 (4 ∷ 5 ∷ [])) in
    (p'.place 0 ≡ Place.waiting)
    × (lookup 0 p'.stat ≡ some Stat.empty)
    × (p'.tasks ≡ [])
    × (p'.taken ≡ 4 ∷ 5 ∷ [])
    × (p'.done ≡ 4 ∷ 5 ∷ [])
unfolding lookup
worker_drains_example = worker_drains (no_worker (4 ∷ 5 ∷ [])) 0 refl refl refl

lost_worker_starves_example :
    (run
      (no_worker [])
      (Act.create 0 ∷ Act.find 0 ∷ Act.publish 0 ∷ Act.enqueue 1 ∷ Act.take 0 ∷ [])).taken
    ≡ []
unfolding lookup
lost_worker_starves_example =
    lost_worker_starves (no_worker []) 0 (Act.enqueue 1 ∷ Act.take 0 ∷ []) (λ j. refl) refl refl tt

run_no_break_example :
    (run
        (one_worker Place.waiting Stat.empty [])
        (Act.take 0 ∷ Act.enqueue 5 ∷ Act.take 0 ∷ [])).place
      0
    ≢ Place.broken
run_no_break_example =
    run_no_break (one_worker Place.waiting Stat.empty [])
      (Act.take 0 ∷ Act.enqueue 5 ∷ Act.take 0 ∷ []) 0 refl (λ j. ground arith)
      ((λ e. cc), ((λ e. cc), ((λ e. cc), tt)))
