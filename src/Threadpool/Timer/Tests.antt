-- ===== src/Threadpool/Timer/Tests.antt =====
-- Tests of Timer.h, and its theorems at inputs that meet their hypotheses.
use server_dev_lib.Base.{ℕ, ◌+◌, ◌≡◌, refl, [], ◌∷◌, true, none, some, ltb, arith, if◌then◌else◌}
use server_dev_lib.Threadpool.Timer.{
  Outside, armed, fire, round, start, create, set_callback, reset,
}
use server_dev_lib.Threadpool.Timer.Calls.{Seen, stops_in, rounds_of, create_calls}

-- The world counts the calls; the callback sets `_stop` from a number of calls on.
abbrev counting : Outside ℕ ℕ
counting = record {
  call = λ n t w. (record t { stop = if ltb w n then t.stop else true }, w + 1);
  sleep = λ ms t w. (t, w);
}

-- A callback that only counts.
abbrev endless : Outside ℕ ℕ
endless = record { call = λ n t w. (t, w + 1); sleep = λ ms t w. (t, w) }

-- Another thread stops the timer while its thread sleeps.
abbrev halted : Outside ℕ ℕ
halted = record { call = λ n t w. (t, w + 1); sleep = λ ms t w. (record t { stop = true }, w) }

three_calls :
    create counting 9 50 2 0
    ≡ some (record { interval = 50; stop = true; shoted_count = 3; cb = some 2 }, 3)
unfolding create start round fire
three_calls = refl

-- `SetCallback` clears the count, and `Reset` keeps it.
replaced :
    let t = record (armed {C = ℕ} 5 1) { shoted_count = 7 } in
    ((set_callback 9 none t).shoted_count ≡ 0) × ((reset (armed 9 2) t).shoted_count ≡ 7)
unfolding set_callback reset
replaced = (refl, refl)

-- A timer that is stopped while its thread sleeps calls its callback once more.
late :
    start halted 2 (armed 50 1, 0)
    ≡ some (record { interval = 50; stop = true; shoted_count = 1; cb = some 1 }, 1)
unfolding start round fire
late = refl

-- A `Stop` in the third sleep.
create_calls_example :
    create {C = ℕ} stops_in 9 50 7 ([], 2)
    ≡ some (
      record { interval = 50; stop = true; shoted_count = 3; cb = some 7 },
      (
        Seen.slept 50
            ∷ Seen.called 7
            ∷ Seen.slept 50
            ∷ Seen.called 7
            ∷ Seen.slept 50
            ∷ Seen.called 7
            ∷ [],
        0,
      ),
    )
unfolding rounds_of
create_calls_example = create_calls 50 7 2 9 (omega arith)
