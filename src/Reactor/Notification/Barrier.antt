-- ===== src/Reactor/Notification/Barrier.antt =====
-- The spin lock of NotificationCenter.h: `while ( !_barrier.exchange(true) )` in front of the critical
-- sections of `NotifyDataReady` and `HandleReadyData`, `while ( !_barrier.exchange(false) )` behind.
-- Any number of threads are interleaved at their exchanges.
use server_dev_lib.Base.{
  ℕ, ◌≡◌, ◌≢◌, refl, ap, ◌∙◌, inl, inr, Bool, true, false, List, [], ◌∷◌, arith, ◌==◌,
  if◌then◌else◌, Bool-cases,
}

-- Where a thread is.
pub data Place : Type 0 where
  outside locking inside unlocking : Place

-- The atomic flag and the threads' places.
pub record Barrier : Type 0 where
  pub flag : Bool
  pub place : ℕ → Place

-- One step of a thread: it arrives, makes one exchange of the first loop, leaves the critical
-- section, or makes one exchange of the second loop.
pub data Act : Type 0 where
  arrive try_lock leave try_unlock : Act

abbrev move : Barrier → ℕ → Place → Barrier
move b i p = record b { place = λ j. if j == i then p else b.place j }

-- `exchange` returns the old value, and either loop ends when that is true.
unfoldable pub exchange : Bool → Place → Barrier → ℕ → Barrier
exchange new next b i = record (if b.flag then move b i next else b) { flag = new }

unfoldable pub step : Barrier → ℕ → Act → Barrier
unfolding exchange
step b i Act.arrive = elim (b.place i) [ outside ↦ move b i Place.locking | _ ↦ b ]
step b i Act.try_lock = elim (b.place i) [ locking ↦ exchange true Place.inside b i | _ ↦ b ]
step b i Act.leave = elim (b.place i) [ inside ↦ move b i Place.unlocking | _ ↦ b ]
step b i Act.try_unlock = elim (b.place i) [ unlocking ↦ exchange false Place.outside b i | _ ↦ b ]

-- A schedule: which thread makes which step.
unfoldable pub run : Barrier → List (ℕ × Act) → Barrier
run b [] = b
run b ((i, a) ∷ acts) = run (step b i a) acts

move_here : (b : Barrier) (i : ℕ) (p : Place) → (move b i p).place i ≡ p
move_here b i p = ground arith

move_there : (b : Barrier) (i j : ℕ) (p : Place) → j ≢ i → (move b i p).place j ≡ b.place j
move_there b i j p ne = ground arith

-- One step, by the place of the thread and the flag.
arrive_lem :
    (b : Barrier) (i : ℕ) → b.place i ≡ Place.outside → step b i Act.arrive ≡ move b i Place.locking
unfolding step
arrive_lem b i at = rw (at, step) refl

try_lock_open :
    (b : Barrier) (i : ℕ)
    → b.place i ≡ Place.locking
    → b.flag ≡ true
    → step b i Act.try_lock ≡ record (move b i Place.inside) { flag = true }
unfolding step
try_lock_open b i at set = rw (at, step, exchange, set) refl

try_lock_shut :
    (b : Barrier) (i : ℕ)
    → b.place i ≡ Place.locking
    → b.flag ≡ false
    → step b i Act.try_lock ≡ record b { flag = true }
unfolding step
try_lock_shut b i at clear = rw (at, step, exchange, clear) refl

leave_lem :
    (b : Barrier) (i : ℕ) → b.place i ≡ Place.inside → step b i Act.leave ≡ move b i Place.unlocking
unfolding step
leave_lem b i at = rw (at, step) refl

try_unlock_open :
    (b : Barrier) (i : ℕ)
    → b.place i ≡ Place.unlocking
    → b.flag ≡ true
    → step b i Act.try_unlock ≡ record (move b i Place.outside) { flag = false }
unfolding step
try_unlock_open b i at set = rw (at, step, exchange, set) refl

try_lock_inside : (b : Barrier) (i : ℕ) → b.place i ≡ Place.inside → step b i Act.try_lock ≡ b
unfolding step
try_lock_inside b i at = rw (at, step) refl

entered : Barrier → ℕ → Barrier
entered b i = record (move b i Place.inside) { flag = true }

lock_result :
    (b : Barrier) (i : ℕ)
    → b.place i ≡ Place.locking
    → run b ((i, Act.try_lock) ∷ (i, Act.try_lock) ∷ []) ≡ entered b i
unfolding run entered
lock_result b i at = elim (Bool-cases b.flag) [
  | inl set ↦
      ap (λ c. step c i Act.try_lock) (try_lock_open b i at set)
      ∙ try_lock_inside (entered b i) i (move_here b i Place.inside)
  | inr clear ↦
      ap (λ c. step c i Act.try_lock) (try_lock_shut b i at clear)
      ∙ try_lock_open (record b { flag = true }) i at refl
]

-- A thread that waits for the lock is inside after two exchanges, whatever the flag and wherever the
-- other threads are; these stay where they are.
lock_passes :
    (b : Barrier) (i : ℕ)
    → b.place i ≡ Place.locking
    → let b' = run b ((i, Act.try_lock) ∷ (i, Act.try_lock) ∷ []) in
      (b'.place i ≡ Place.inside) × ((j : ℕ) → j ≢ i → b'.place j ≡ b.place j)
unfolding entered
lock_passes b i at =
    rw (lock_result b i at) (move_here b i Place.inside, λ j ne. move_there b i j Place.inside ne)

-- While one thread is inside the critical section, another that arrives comes in too.
lock_excludes_nobody :
    (b : Barrier) (i j : ℕ)
    → i ≢ j
    → b.place i ≡ Place.inside
    → b.place j ≡ Place.outside
    → let b' = run b ((j, Act.arrive) ∷ (j, Act.try_lock) ∷ (j, Act.try_lock) ∷ []) in
      (b'.place i ≡ Place.inside) × (b'.place j ≡ Place.inside)
unfolding run
lock_excludes_nobody b i j ne at out =
    let waiting = move b j Place.locking in
    let (here, there) = lock_passes waiting j (move_here b j Place.locking) in
    rw (arrive_lem b j out) (there i ne ∙ move_there b j i Place.locking ne ∙ at, here)

-- Clears the flag, or leaves it clear.
abbrev is_try_lock : Act → Bool
is_try_lock Act.try_lock = true
is_try_lock _ = false

abbrev NoneLocks : List (ℕ × Act) → Type 0
NoneLocks [] = Unit {0}
NoneLocks ((i, a) ∷ acts) = (is_try_lock a ≡ false) × NoneLocks acts

abbrev IsStuck : ℕ → Barrier → Type 0
IsStuck i b = (b.flag ≡ false) × (b.place i ≡ Place.unlocking)

step-IsStuck :
    (b : Barrier) (i j : ℕ) (a : Act) → is_try_lock a ≡ false → IsStuck i b → IsStuck i (step b j a)
unfolding step
step-IsStuck b i j Act.try_lock no_lock stuck = cc
step-IsStuck b i j Act.arrive no_lock stuck = ground arith
step-IsStuck b i j Act.leave no_lock stuck = ground arith
step-IsStuck b i j Act.try_unlock no_lock stuck = ground arith

-- A thread in the second loop that finds the flag clear stays in it as long as no other thread makes
-- an exchange of the first loop, however often it tries.
unlock_hangs :
    (b : Barrier) (i : ℕ) (acts : List (ℕ × Act))
    → b.flag ≡ false
    → b.place i ≡ Place.unlocking
    → NoneLocks acts
    → (run b acts).place i ≡ Place.unlocking
unfolding run
unlock_hangs b i [] clear at none_locks = at
unlock_hangs b i ((j, a) ∷ acts) clear at none_locks =
    let (clear', at') = step-IsStuck b i j a none_locks.0 (clear, at) in
    unlock_hangs (step b j a) i acts clear' at' none_locks.1

-- A thread that goes through both loops and the critical section with no other exchange in between
-- comes out with the flag clear, after two exchanges of the first loop and one of the second.
lock_alone :
    (b : Barrier) (i : ℕ)
    → b.place i ≡ Place.outside
    → let b' = run b (
        (i, Act.arrive)
        ∷ (i, Act.try_lock)
        ∷ (i, Act.try_lock)
        ∷ (i, Act.leave)
        ∷ (i, Act.try_unlock)
        ∷ []) in
      (b'.place i ≡ Place.outside) × (b'.flag ≡ false)
unfolding run entered
lock_alone b i out =
    let waiting = move b i Place.locking in
    let away = move (entered waiting i) i Place.unlocking in
    rw
      (
        arrive_lem b i out,
        lock_result waiting i (move_here b i Place.locking),
        leave_lem (entered waiting i) i (move_here waiting i Place.inside),
        try_unlock_open away i (move_here (entered waiting i) i Place.unlocking) refl,
      )
      (move_here away i Place.outside, refl)
