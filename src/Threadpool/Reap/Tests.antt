-- ===== src/Threadpool/Reap/Tests.antt =====
-- The dropping of workers at an input that meets its hypotheses.
use server_dev_lib.Base.{◌≡◌, refl, false, none, [], ◌∷◌}
use server_dev_lib.Threadpool.Pool.{Pool, Stat, Place}
use server_dev_lib.Threadpool.Reap.{reap, reap_lem, IsRegistered, has_idle}

abbrev resting : Pool
resting = record {
  workers = 1 ∷ 2 ∷ [];
  stat = (1, Stat.active) ∷ (2, Stat.empty) ∷ [];
  tasks = [];
  stop = false;
  closing = false;
  place = λ i. Place.waiting;
  taken = [];
  done = [];
}

resting-IsRegistered : IsRegistered resting.workers resting.stat
unfolding IsRegistered
resting-IsRegistered = (refl, (refl, tt))

reap_lem_example : reap resting ≡ none
unfolding has_idle
reap_lem_example = reap_lem resting resting-IsRegistered
