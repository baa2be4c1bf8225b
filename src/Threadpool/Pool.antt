-- ===== src/Threadpool/Pool.antt =====
-- include/server/threadpool/ThreadPool.h: workers, their states and the queue of tasks. Threads are
-- interleaved: each action below is the code between two points at which another thread may run, and
-- what runs under `_queueMutex` is one action.
pub mod Join
pub mod Order
pub mod Serve
pub mod Shutdown
pub mod Start
mod Tests
use server_dev_lib.Base.{
  ℕ, ◌+◌, Bool, true, false, ◌||◌, not, Option, none, some, List, [], ◌∷◌, ◌++◌, ◌==◌,
  if◌then◌else◌,
}
use server_dev_lib.Base.Map.{lookup, emplace, update, nat_eq}

-- `enum Stat`
pub data Stat : Type 0 where
  empty active dead : Stat

-- Where a thread is in `WorkerThread`: not made yet, before the `find`, before the test of the loop,
-- between the test and `it->second = EMPTY`, before or in the wait, in a task, returned, or past a
-- `front()` of an empty queue.
pub data Place : Type 0 where
  absent starting testing entered waiting : Place
  running : ℕ → Place
  returned broken : Place

-- A thread and a task are known by numbers. `closing` is set while `Shutdown` has written `_stop` and
-- not yet taken the lock; `taken` lists the tasks that workers have popped, oldest first, and `done`
-- those that have returned, whose futures are ready.
pub record Pool : Type 0 where
  pub workers : List ℕ
  pub stat : List (ℕ × Stat)
  pub tasks : List ℕ
  pub stop : Bool
  pub closing : Bool
  pub place : ℕ → Place
  pub taken : List ℕ
  pub done : List ℕ

pub data Act : Type 0 where
  create publish find test mark take finish enqueue : ℕ → Act
  shutdown_flag shutdown_clear : Act

abbrev move : Pool → ℕ → Place → Pool
move p i to = record p { place = λ j. if j == i then to else p.place j }

-- `std::thread t(&ThreadPool::WorkerThread, this)`
unfoldable pub create_thread : Pool → ℕ → Place → Pool
create_thread p i Place.absent = move p i Place.starting
create_thread p i at = p

-- `_workers.emplace(id, std::move(t)); _workerStat.emplace(id, ACTIVE);`
unfoldable pub publish_worker : Pool → ℕ → Pool
publish_worker p i = record p { workers = i ∷ p.workers; stat = emplace i Stat.active p.stat }

-- `auto it = _workerStat.find(id)`, and `it != _workerStat.end()` of the loop's first test.
unfoldable pub find_self : Pool → ℕ → Place → Pool
find_self p i Place.starting = elim (lookup i p.stat) [
  | none ↦ move p i Place.returned
  | some s ↦ move p i Place.testing
]
find_self p i at = p

abbrev is_active : Option Stat → Bool
is_active (some Stat.active) = true
is_active _ = false

-- `while ( it->second == ACTIVE )`
unfoldable pub test_loop : Pool → ℕ → Place → Pool
test_loop p i Place.testing =
    if is_active (lookup i p.stat) then move p i Place.entered else move p i Place.returned
test_loop p i at = p

-- `it->second = EMPTY`
unfoldable pub mark_empty : Pool → ℕ → Place → Pool
mark_empty p i Place.entered = record (move p i Place.waiting) {
  stat = update i (λ s. Stat.empty) p.stat;
}
mark_empty p i at = p

abbrev is_dead : Option Stat → Bool
is_dead (some Stat.dead) = true
is_dead _ = false

-- `_tasks.front()` and `_tasks.pop()`, and `it->second = ACTIVE`. On an empty queue both are undefined:
-- the thread is then broken for good, and what the model has of the queue from there on says nothing of
-- the program.
unfoldable pub pop_task : Pool → ℕ → List ℕ → Pool
pop_task p i [] = move p i Place.broken
pop_task p i (t ∷ rest) = record (move p i (Place.running t)) {
  stat = update i (λ s. Stat.active) p.stat;
  tasks = rest;
  taken = p.taken ++ (t ∷ []);
}

abbrev pub is_empty : List ℕ → Bool
is_empty [] = true
is_empty (t ∷ ts) = false

-- What a worker does under the lock, once the wait's predicate holds; until then it waits.
unfoldable pub take_task : Pool → ℕ → Place → Pool
unfolding pop_task
take_task p i Place.waiting =
    if p.stop || not (is_empty p.tasks)
    then (if is_dead (lookup i p.stat) then move p i Place.returned else pop_task p i p.tasks)
    else p
take_task p i at = p

-- `task()` returns: the `packaged_task` of `EnqueueTask` has made its future ready.
unfoldable pub finish_task : Pool → ℕ → Place → Pool
finish_task p i (Place.running t) = record (move p i Place.testing) { done = p.done ++ (t ∷ []) }
finish_task p i at = p

-- `EnqueueTask`, whose future is known by its task
unfoldable pub enqueue_task : Pool → ℕ → Pool
enqueue_task p t = record p { tasks = p.tasks ++ (t ∷ []) }

unfoldable pub all_dead : List (ℕ × Stat) → List (ℕ × Stat)
all_dead [] = []
all_dead ((i, s) ∷ m) = (i, Stat.dead) ∷ all_dead m

-- `Shutdown` up to `_stop = true`
unfoldable pub shutdown_begin : Pool → Pool
shutdown_begin p = if p.stop then p else record p { stop = true; closing = true }

-- `Shutdown` under the lock
unfoldable pub shutdown_locked : Pool → Pool
unfolding all_dead
shutdown_locked p =
    if p.closing then record p { tasks = []; stat = all_dead p.stat; closing = false } else p

unfoldable pub step : Pool → Act → Pool
step p (Act.create i) = create_thread p i (p.place i)
step p (Act.publish i) = publish_worker p i
step p (Act.find i) = find_self p i (p.place i)
step p (Act.test i) = test_loop p i (p.place i)
step p (Act.mark i) = mark_empty p i (p.place i)
step p (Act.take i) = take_task p i (p.place i)
step p (Act.finish i) = finish_task p i (p.place i)
step p (Act.enqueue t) = enqueue_task p t
step p Act.shutdown_flag = shutdown_begin p
step p Act.shutdown_clear = shutdown_locked p

unfoldable pub run : Pool → List Act → Pool
run p [] = p
run p (a ∷ acts) = run (step p a) acts

-- `ThreadPool()` before `Init`
unfoldable pub init : Pool
init = record {
  workers = [];
  stat = [];
  tasks = [];
  stop = false;
  closing = false;
  place = λ i. Place.absent;
  taken = [];
  done = [];
}

-- `Init`, as the actions of the thread that makes the pool: `n` workers from number `i` on.
unfoldable pub init_acts : ℕ → ℕ → List Act
init_acts ℕ.zero i = []
init_acts (ℕ.suc n) i = Act.create i ∷ Act.publish i ∷ init_acts n (i + 1)
