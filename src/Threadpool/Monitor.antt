-- ===== src/Threadpool/Monitor.antt =====
-- The load monitor of include/server/threadpool/ThreadPool.h: `GetThredShold`, `Monitor` and `Adjust`,
-- with the counters that `Adjust` keeps in static variables. What the pool is to do is the result.
mod Tests
use server_dev_lib.Base.{
  ℕ, suc, ◌+◌, ◌*◌, ◌%◌, ◌≤◌, ◌≡◌, refl, Bool, true, false, ◌&&◌, not, ltb, if◌then◌else◌, arith,
  List, [], ◌∷◌, length, Bool-cases, inl, inr,
}
use server_dev_lib.Base.Map.{erase, nat_eq}
use server_dev_lib.Base.Int.{ℤ, pos, negsuc, lt_nat}
use server_dev_lib.Threadpool.Pool.{Stat}

-- `struct ThreadPoolConfig`
pub record Config : Type 0 where
  pub min_core_thread : ℕ
  pub max_thread : ℕ
  pub start_monitor_timer : Bool
  pub monitor_period : ℕ
  pub verify_count : ℕ

-- The condition under which `Init` starts the timer thread.
unfoldable pub starts_timer : Config → Bool
starts_timer c = c.start_monitor_timer && ltb c.min_core_thread c.max_thread

-- What the code does with `double` values, of which nothing is asked: the percentage from two
-- differences, `d < 1.0 * n`, and `static_cast<long>`, which truncates.
pub record Doubles : Type 1 where
  pub Double : Type 0
  pub percent : ℤ → ℤ → Double
  pub less : Double → ℕ → Bool
  pub to_long : Double → ℤ

-- `GetThredShold`, over FIRST, SECOND and THIRD
unfoldable pub get_threshold : ℤ → ℕ
get_threshold d = if lt_nat d 50 then 50 else if lt_nat d 70 then 70 else 90

pub record Monitor : Type 0 where
  pub threshold : ℕ
  pub count_for_add : ℕ
  pub count_for_sub : ℕ

pub data Decision : Type 0 where
  keep spawn reap : Decision

-- What `Monitor` meets at one of its calls: the differences of the two times, whether no task waits,
-- and the number of workers.
pub record Sample : Type 0 where
  pub idle_diff : ℤ
  pub total_diff : ℤ
  pub no_tasks : Bool
  pub workers : ℕ

abbrev pub is_spawn : Decision → Bool
is_spawn Decision.spawn = true
is_spawn _ = false

abbrev pub is_reap : Decision → Bool
is_reap Decision.reap = true
is_reap _ = false

unfoldable pub how_many : (Decision → Bool) → List Decision → ℕ
how_many test [] = 0
how_many test (d ∷ ds) = if test d then how_many test ds + 1 else how_many test ds

-- One decision more, and what it cost.
paid_for :
    (b : Bool) (m v before after more : ℕ)
    → (if b then v + 1 else 0) + after ≤ before + 1
    → m * (v + 1) ≤ after + more
    → (if b then m + 1 else m) * (v + 1) ≤ before + suc more
paid_for true m v before after more cost rest =
    let e : (m + 1) * (v + 1) ≡ m * (v + 1) + (v + 1) = omega arith in omega (arith, e)
paid_for false m v before after more cost rest = omega arith

module _ (f : Doubles) (c : Config) where
  -- `Adjust`: `workers` is the size of `_workers`; the counters are `uint8_t`.
  unfoldable pub adjust : f.Double → Bool → ℕ → Monitor → Decision × Monitor
  adjust d no_tasks workers s =
      let add = (s.count_for_add + 1) % 256 in
      let sub = (s.count_for_sub + 1) % 256 in
      if f.less d s.threshold && not no_tasks
      then (if ltb c.verify_count add && ltb workers c.max_thread
          then (Decision.spawn, record s { count_for_add = 0 })
          else (Decision.keep, record s { count_for_add = add }))
      else (if f.less d s.threshold && no_tasks
          then (if ltb c.verify_count sub && ltb c.min_core_thread workers
              then (Decision.reap, record s { count_for_sub = 0 })
              else (Decision.keep, record s { count_for_sub = sub }))
          else (Decision.keep, s))

  -- `Monitor`, from the differences of the idle and the total time.
  unfoldable pub monitor : ℤ → ℤ → Bool → ℕ → Monitor → Decision × Monitor
  monitor idle_diff total_diff no_tasks workers s =
      if ltb c.min_core_thread c.max_thread
      then (Decision.keep, s)
      else (let d = f.percent idle_diff total_diff in
          adjust d no_tasks workers (record s { threshold = get_threshold (f.to_long d) }))

  -- The decisions of calls of `Monitor`, one after another.
  unfoldable pub monitor_all : List Sample → Monitor → List Decision
  unfolding monitor
  monitor_all [] s = []
  monitor_all (x ∷ xs) s =
      let (decision, s') = monitor x.idle_diff x.total_diff x.no_tasks x.workers s in
      decision ∷ monitor_all xs s'

  -- One call: a decision to make a worker costs `verify_count` rounds and one, which were counted; the
  -- same for one to drop workers.
  monitor-counts :
      (x : Sample) (s : Monitor)
      → let (decision, s') = monitor x.idle_diff x.total_diff x.no_tasks x.workers s in
        ((if is_spawn decision then c.verify_count + 1 else 0) + s'.count_for_add
          ≤ s.count_for_add + 1)
        × ((if is_reap decision then c.verify_count + 1 else 0) + s'.count_for_sub
            ≤ s.count_for_sub + 1)
  unfolding monitor adjust
  monitor-counts x s = ground arith

  monitor-waits :
      (x : Sample) (s : Monitor)
      → ltb c.min_core_thread c.max_thread ≡ true
      → monitor x.idle_diff x.total_diff x.no_tasks x.workers s ≡ (Decision.keep, s)
  unfolding monitor
  monitor-waits x s waits = rw waits refl

  all_wait :
      (xs : List Sample) (s : Monitor)
      → ltb c.min_core_thread c.max_thread ≡ true
      → how_many is_spawn (monitor_all xs s) + how_many is_reap (monitor_all xs s) ≡ 0
  unfolding monitor_all how_many
  all_wait [] s waits = refl
  all_wait (x ∷ xs) s waits = rw (monitor-waits x s waits) (all_wait xs s waits)

  never_under :
      (b : Bool) (xs : List Sample) (s : Monitor)
      → ltb c.min_core_thread c.max_thread ≡ b
      → let ds = monitor_all xs s in
        (if b then how_many is_spawn ds + how_many is_reap ds else 0) ≡ 0
  never_under true xs s waits = all_wait xs s waits
  never_under false xs s waits = refl

  -- The decisions of any calls of `Monitor`, whatever the load is: each worker that it makes is paid for
  -- by more than `verify_count` calls that counted for it, and each drop of workers likewise; under the
  -- condition under which `Init` starts the timer, `min_core_thread < max_thread`, it decides
  -- neither.
  pub decisions_bounded :
      (xs : List Sample) (s : Monitor)
      → let ds = monitor_all xs s in
        (how_many is_spawn ds * (c.verify_count + 1) ≤ s.count_for_add + length xs)
        × (how_many is_reap ds * (c.verify_count + 1) ≤ s.count_for_sub + length xs)
        × ((if ltb c.min_core_thread c.max_thread
              then how_many is_spawn ds + how_many is_reap ds
              else 0)
            ≡ 0)
  unfolding monitor_all how_many
  decisions_bounded [] s = (omega arith, omega arith, ground arith)
  decisions_bounded (x ∷ xs) s =
      let (decision, s') = monitor x.idle_diff x.total_diff x.no_tasks x.workers s in
      let ds = monitor_all xs s' in
      let (made, dropped) = monitor-counts x s in
      let (made_later, dropped_later, none_later) = decisions_bounded xs s' in
      (
        paid_for (is_spawn decision) (how_many is_spawn ds) c.verify_count s.count_for_add
            s'.count_for_add (length xs) made made_later,
        paid_for (is_reap decision) (how_many is_reap ds) c.verify_count s.count_for_sub
            s'.count_for_sub (length xs) dropped dropped_later,
        never_under (ltb c.min_core_thread c.max_thread) (x ∷ xs) s refl,
      )
