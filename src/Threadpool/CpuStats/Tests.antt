-- ===== src/Threadpool/CpuStats/Tests.antt =====
-- Tests of `GetCPUStats`, and its theorem at a line of `/proc/stat`.
use server_dev_lib.Base.{◌≡◌, refl, none, some, [], ◌∷◌, ◌++◌, arith}
use server_dev_lib.Base.Text.{codes}
use server_dev_lib.Base.Int.{pos, negsuc}
use server_dev_lib.Threadpool.CpuStats.{
  Input, get_cpu_stats, read_long, init_times, sample, long_max,
}
use server_dev_lib.Threadpool.CpuStats.Once.{Cpu, stat_line, cpu_stats_lem}

reads_stats :
    get_cpu_stats (some (codes "cpu  10 2 30 400 5 0 6 1 0 0" ++ 10 ∷ []))
    ≡ (some (pos 405), some (pos 454), none)
unfolding get_cpu_stats
reads_stats = refl

-- A column that is missing leaves the sum without a value.
reads_short_line : get_cpu_stats (some (codes "cpu 10 2 30 400 5")) ≡ (some (pos 405), none, none)
unfolding get_cpu_stats
reads_short_line = refl

reads_sign : read_long (some (codes " -12x")) ≡ (some (negsuc 11), some (codes "x"))
unfolding read_long
reads_sign = refl

reads_no_digit : read_long (some (codes " x")) ≡ (some (pos 0), none)
unfolding read_long
reads_no_digit = refl

reads_too_large : read_long (some (codes "9223372036854775808 1")) ≡ (some (pos long_max), none)
unfolding read_long
reads_too_large = refl

abbrev sampled : Cpu
sampled = record {
  user = 10;
  nice = 2;
  system = 30;
  idle = 400;
  iowait = 5;
  irq = 0;
  softirq = 6;
  steal = 1;
}

cpu_stats_lem_example :
    let file : Input = some (stat_line sampled (codes " 0 0") ++ (10 ∷ codes "cpu0")) in
    (get_cpu_stats file ≡ (some (pos 405), some (pos 454), none))
    × ((init_times file).prev_idle ≡ some (pos 454))
    × ((init_times file).prev_total ≡ some (pos 0))
    × ((sample (init_times file)).0 ≡ (none, none))
cpu_stats_lem_example =
    cpu_stats_lem sampled (codes " 0 0") (codes "cpu0") (omega arith)
      (refl, (refl, (refl, (refl, tt)))) refl
