-- ===== src/Threadpool/Monitor/Tests.antt =====
-- The theorem of the monitor at an input that meets its hypotheses; whole numbers stand for `double`.
use server_dev_lib.Base.{ℕ, ◌≡◌, ◌≤◌, ◌*◌, refl, true, false, List, [], ◌∷◌}
use server_dev_lib.Base.Int.{ℤ, pos, lt_nat}
use server_dev_lib.Threadpool.Monitor.{
  Config, Doubles, Monitor, Decision, Sample, get_threshold, adjust, monitor, monitor_all, how_many,
  is_spawn, is_reap, decisions_bounded,
}

abbrev whole : Doubles
whole = record { Double = ℤ; percent = λ a b. a; less = lt_nat; to_long = λ d. d }

-- A pool of at most four workers, which has one to start with, and whose smallest size is its largest.
abbrev config : Config
config = record {
  min_core_thread = 4;
  max_thread = 4;
  start_monitor_timer = true;
  monitor_period = 30000;
  verify_count = 1;
}

abbrev state : Monitor
state = record { threshold = 50; count_for_add = 0; count_for_sub = 0 }

abbrev loaded : Sample
loaded = record { idle_diff = pos 60; total_diff = pos 100; no_tasks = false; workers = 1 }

abbrev three_loads : List Sample
three_loads = loaded ∷ loaded ∷ loaded ∷ []

second_spawns :
    monitor_all whole config three_loads state ≡ Decision.keep ∷ Decision.spawn ∷ Decision.keep ∷ []
unfolding monitor_all monitor adjust get_threshold
second_spawns = refl

decisions_bounded_example :
    let ds = monitor_all whole config three_loads state in
    let none_made : ℕ = 0 in
    (how_many is_spawn ds * 2 ≤ 3) × (how_many is_reap ds * 2 ≤ 3) × (none_made ≡ 0)
decisions_bounded_example = decisions_bounded whole config three_loads state
