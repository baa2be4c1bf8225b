-- ===== src/Threadpool/Pool/Join.antt =====
-- `Shutdown` of ThreadPool.h and the joins at its end, against any interleaving of what the workers
-- still do.
use server_dev_lib.Base.{
  ℕ, ◌+◌, ◌≤◌, ◌≡◌, refl, Bool, true, false, ◌&&◌, some, List, [], ◌∷◌, ◌++◌, ◌==◌, ap, ◌∙◌, arith,
}
use server_dev_lib.Base.Map.{lookup, lookup-update, lookup-emplace, nat_eq}
use server_dev_lib.Threadpool.Pool.{
  Pool, Act, Place, Stat, step, run, create_thread, publish_worker, find_self, test_loop,
  mark_empty, take_task, finish_task, enqueue_task, shutdown_begin, shutdown_locked,
}
use server_dev_lib.Threadpool.Pool.Shutdown.{shut, locked_run, lookup-all_dead}

abbrev has_returned : Place → Bool
has_returned Place.returned = true
has_returned _ = false

-- `for ( auto & pair : _workers ) pair.second.join()` gets to its end.
unfoldable pub joins : Pool → List ℕ → Bool
joins p [] = true
joins p (i ∷ is) = let rest = joins p is in has_returned (p.place i) && rest

-- Whether the next action is the one that thread `i` does at its place, under a set `_stop`.
abbrev is_turn : ℕ → Place → Act → Bool
is_turn i Place.starting (Act.find j) = i == j
is_turn i Place.testing (Act.test j) = i == j
is_turn i Place.waiting (Act.take j) = i == j
is_turn i (Place.running t) (Act.finish j) = i == j
is_turn i _ _ = false

abbrev one_if : Bool → ℕ
one_if true = 1
one_if false = 0

-- The turns that thread `i` gets.
unfoldable pub turns : ℕ → Pool → List Act → ℕ
turns i p [] = 0
turns i p (a ∷ acts) = one_if (is_turn i (p.place i) a) + turns i (step p a) acts

-- The turns after which a thread has returned, once its entry is DEAD.
abbrev pub remaining : Place → ℕ
remaining Place.starting = 2
remaining (Place.running t) = 2
remaining Place.testing = 1
remaining Place.waiting = 1
remaining _ = 0

-- The places of a thread that was made and is not between its test of the state and its
-- `it->second = EMPTY`.
abbrev pub is_settled : Place → Bool
is_settled Place.absent = false
is_settled Place.entered = false
is_settled Place.broken = false
is_settled _ = true

record Leaving (p : Pool) (i : ℕ) : Type 0 where
  stopped : p.stop ≡ true
  locked : p.closing ≡ false
  entry : lookup i p.stat ≡ some Stat.dead
  settled : is_settled (p.place i) ≡ true

step-Leaving :
    (p : Pool) (i : ℕ) (a : Act)
    → Leaving p i
    → Leaving (step p a) i
      × (one_if (is_turn i (p.place i) a) + remaining ((step p a).place i) ≡ remaining (p.place i))
unfolding step create_thread publish_worker find_self test_loop mark_empty take_task finish_task
    enqueue_task shutdown_begin shutdown_locked
step-Leaving p i (Act.create j) v = ground arith
step-Leaving p i (Act.publish j) v = ground (arith, lookup-emplace j i Stat.active p.stat)
step-Leaving p i (Act.find j) v = ground arith
step-Leaving p i (Act.test j) v = ground arith
step-Leaving p i (Act.mark j) v = ground (arith, lookup-update j i (λ t. Stat.empty) p.stat)
step-Leaving p i (Act.take j) v = ground (arith, lookup-update j i (λ t. Stat.active) p.stat)
step-Leaving p i (Act.finish j) v = ground arith
step-Leaving p i (Act.enqueue t) v = ground arith
step-Leaving p i Act.shutdown_flag v = ground arith
step-Leaving p i Act.shutdown_clear v = ground arith

run-turns :
    (p : Pool) (i : ℕ) (acts : List Act)
    → Leaving p i
    → (turns i p acts + remaining ((run p acts).place i) ≡ remaining (p.place i))
      × (is_settled ((run p acts).place i) ≡ true)
unfolding turns run
run-turns p i [] v = (omega arith, v.settled)
run-turns p i (a ∷ acts) v =
    let (v', spent) = step-Leaving p i a v in
    let (total, settled) = run-turns (step p a) i acts v' in (omega (arith, spent, total), settled)

shut-Leaving :
    (p : Pool) (i : ℕ) (s : Stat)
    → lookup i p.stat ≡ some s
    → is_settled (p.place i) ≡ true
    → Leaving (shut p) i
shut-Leaving p i s known settled = ground (arith, lookup-all_dead i p.stat)

none_remains : (at : Place) → is_settled at ≡ true → remaining at ≡ 0 → has_returned at ≡ true
none_remains at h e = ground arith

step-stop : (p : Pool) (a : Act) → p.stop ≡ true → (step p a).stop ≡ true
unfolding step create_thread publish_worker find_self test_loop mark_empty take_task finish_task
    enqueue_task shutdown_begin shutdown_locked
step-stop p a h = ground arith

run-stop : (p : Pool) (acts : List Act) → p.stop ≡ true → (run p acts).stop ≡ true
unfolding run
run-stop p [] h = h
run-stop p (a ∷ acts) h = run-stop (step p a) acts (step-stop p a h)

run-append : (p : Pool) (first rest : List Act) → run p (first ++ rest) ≡ run (run p first) rest
unfolding run
run-append p [] rest = refl
run-append p (a ∷ first) rest = run-append (step p a) first rest

flag-stop : (p : Pool) → p.stop ≡ false → (step p Act.shutdown_flag).stop ≡ true
unfolding step shutdown_begin
flag-stop p going = ground arith

-- After the locked part of `Shutdown`, over any interleaving: a thread with an entry in the map that is
-- not between its test and its `it->second = EMPTY` gets as many turns as remain to it, two at most,
-- and no more; once it has had them, it has returned.
shutdown_ends_worker :
    (p : Pool) (i : ℕ) (s : Stat) (acts : List Act)
    → p.stop ≡ true
    → p.closing ≡ true
    → lookup i p.stat ≡ some s
    → is_settled (p.place i) ≡ true
    → let p' = run p (Act.shutdown_clear ∷ acts) in
      (turns i (shut p) acts + remaining (p'.place i) ≡ remaining (p.place i))
      × (is_settled (p'.place i) ≡ true)
shutdown_ends_worker p i s acts stopping locking known settled =
    rw (locked_run p acts stopping locking)
      (run-turns (shut p) i acts (shut-Leaving p i s known settled))

-- What the locked part of `Shutdown` meets: each thread of the map has an entry, is not between its
-- test and its `it->second = EMPTY`, has not taken the front of an empty queue, and gets its turns.
abbrev pub AllLeave : Pool → List Act → List ℕ → Type 0
AllLeave p acts [] = Unit {0}
AllLeave p acts (i ∷ is) =
    ((s : Stat) × (lookup i p.stat ≡ some s))
    × (is_settled (p.place i) ≡ true)
    × (remaining (p.place i) ≤ turns i (shut p) acts)
    × AllLeave p acts is

all_joined :
    (p : Pool) (acts : List Act) (is : List ℕ)
    → p.stop ≡ true
    → p.closing ≡ true
    → AllLeave p acts is
    → joins (run p (Act.shutdown_clear ∷ acts)) is ≡ true
unfolding joins
all_joined p acts [] stopping locking h = refl
all_joined p acts (i ∷ is) stopping locking ((s, known), settled, enough, rest) =
    let (spent, kept) = shutdown_ends_worker p i s acts stopping locking known settled in
    let p' = run p (Act.shutdown_clear ∷ acts) in
    let back = none_remains (p'.place i) kept (omega (arith, spent)) in
    rw back (all_joined p acts is stopping locking rest)

-- `Shutdown` of a running pool, with any actions of the workers and any calls of `EnqueueTask` between
-- its `_stop = true` and its lock, and any behind the lock, empties the queue and gets through its
-- joins: if at the lock each worker has its entry in the map, is not between its test of the state and
-- its `it->second = EMPTY`, and has not taken the front of an empty queue, and if behind the lock it
-- gets the turns that remain to it (two at most), then all have returned.
pub shutdown_joins :
    (p : Pool) (between acts : List Act)
    → p.stop ≡ false
    → (run p (Act.shutdown_flag ∷ between)).closing ≡ true
    → (let p1 = run p (Act.shutdown_flag ∷ between) in AllLeave p1 acts p1.workers)
    → let p1 = run p (Act.shutdown_flag ∷ between) in
      ((run p1 (Act.shutdown_clear ∷ [])).tasks ≡ [])
      × (joins (run p (Act.shutdown_flag ∷ between ++ (Act.shutdown_clear ∷ acts))) p1.workers
          ≡ true)
unfolding run
shutdown_joins p between acts going locking h =
    let first = step p Act.shutdown_flag in
    let p1 = run first between in
    let stopping = run-stop first between (flag-stop p going) in
    (
      rw (locked_run p1 [] stopping locking) refl,
      ap (λ q. joins q p1.workers) (run-append first between (Act.shutdown_clear ∷ acts))
          ∙ all_joined p1 acts p1.workers stopping locking h,
    )
