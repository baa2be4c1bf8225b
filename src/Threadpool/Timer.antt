-- ===== src/Threadpool/Timer.antt =====
-- include/server/threadpool/Timer.h: a callback that is called again and again, by the thread that is in
-- `Start`, until that thread sees `_stop`.
pub mod Calls
pub mod Rounds
mod Tests
use server_dev_lib.Base.{ℕ, zero, suc, ◌+◌, ◌%◌, ◌^◌, Bool, true, false, Option, none, some}

-- A timer over the callables `C`.
pub record Timer (C : Type 0) : Type 0 where
  pub interval : ℕ
  pub stop : Bool
  pub shoted_count : ℕ
  pub cb : Option C

-- What happens outside: `call` is a call of a callable by the timer that holds it, which may change the
-- timer and the world; `sleep` is what the other threads do to them while the timer's thread sleeps.
pub record Outside (C W : Type 0) : Type 0 where
  pub call : C → Timer C → W → Timer C × W
  pub sleep : ℕ → Timer C → W → Timer C × W

-- `Timer()`
abbrev pub idle : {C : Type 0} → Timer C
idle = record { interval = 0; stop = false; shoted_count = 0; cb = none }

-- The members of `Timer(interval, cb)` in front of its call of `Start`.
abbrev pub armed : {C : Type 0} → ℕ → C → Timer C
armed interval cb = record { interval = interval; stop = false; shoted_count = 0; cb = some cb }

-- `if ( _cb ) _cb();`
unfoldable pub fire : {C W : Type 0} → Outside C W → Timer C → W → Timer C × W
fire outside t w = elim t.cb [ none ↦ (t, w) | some f ↦ outside.call f t w ]

-- The body of the loop of `Start`.
unfoldable pub round : {C W : Type 0} → Outside C W → Timer C × W → Timer C × W
unfolding fire
round outside (t, w) =
    let (t1, w1) = outside.sleep t.interval t w in
    let (t2, w2) = fire outside t1 w1 in
    (record t2 { shoted_count = (t2.shoted_count + 1) % 2 ^ 64 }, w2)

-- `Start()`, on fuel.
unfoldable pub start : {C W : Type 0} → Outside C W → ℕ → Timer C × W → Option (Timer C × W)
unfolding round
start outside zero s = none
start outside (suc fuel) s = elim s.0.stop [
  | true ↦ some s
  | false ↦ start outside fuel (round outside s)
]

-- `Timer(interval, cb)`, on fuel.
unfoldable pub create : {C W : Type 0} → Outside C W → ℕ → ℕ → C → W → Option (Timer C × W)
unfolding start
create outside fuel interval cb w = start outside fuel (armed interval cb, w)

-- `Stop()`, and the destructor
unfoldable pub stop_now : {C : Type 0} → Timer C → Timer C
stop_now t = record t { stop = true }

-- `SetInterval(interval)`
unfoldable pub set_interval : {C : Type 0} → ℕ → Timer C → Timer C
set_interval interval t = record t { interval = interval }

-- `SetCallback(interval, cb)`, with a callable or an empty function
unfoldable pub set_callback : {C : Type 0} → ℕ → Option C → Timer C → Timer C
set_callback interval cb t = record t { interval = interval; cb = cb; shoted_count = 0 }

-- `Reset(timer)`
unfoldable pub reset : {C : Type 0} → Timer C → Timer C → Timer C
reset timer t = record t { interval = timer.interval; cb = timer.cb }
