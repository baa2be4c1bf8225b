-- ===== src/Threadpool/CpuStats/Once.antt =====
-- What `GetCPUStats` of ThreadPool.h gives at its first call, and at every later one.
use server_dev_lib.Base.{
  ℕ, zero, suc, ◌+◌, ◌/◌, ◌%◌, ◌≤◌, ◌≡◌, refl, ap, true, false, none, some, List, [], ◌∷◌, ◌++◌,
  ltb, leb, ◌==◌, Bool-cases, inl, inr, arith,
}
use server_dev_lib.Base.Int.{pos}
use server_dev_lib.Logging.Format.{show, show_digits}
use server_dev_lib.Threadpool.CpuStats.{
  Input, get_line, read_word, drop_word, skip_space, get_cpu_stats, long_max, starts_with_digit,
  ◌+?◌, sub_long, add_long, init_times, sample,
}
use server_dev_lib.Threadpool.CpuStats.Fields.{read_long-show, read_long-space}

-- The times of all processors, as the kernel counts them.
pub record Cpu : Type 0 where
  pub user : ℕ
  pub nice : ℕ
  pub system : ℕ
  pub idle : ℕ
  pub iowait : ℕ
  pub irq : ℕ
  pub softirq : ℕ
  pub steal : ℕ

abbrev pub total : Cpu → ℕ
total c = c.user + c.nice + c.system + c.idle + c.iowait + c.irq + c.softirq + c.steal

abbrev column : ℕ → List ℕ → List ℕ
column n rest = b' ' ∷ (show n ++ rest)

abbrev columns_of : Cpu → List ℕ → List ℕ
columns_of c rest = column c.user (
    column c.nice (
      column c.system
        (column c.idle (column c.iowait (column c.irq (column c.softirq (column c.steal rest)))))))

-- The first line of `/proc/stat`, with what stands behind the eighth column.
pub stat_line : Cpu → List ℕ → List ℕ
stat_line c rest = b'c' ∷ b'p' ∷ b'u' ∷ b' ' ∷ columns_of c rest

abbrev pub OneLine : List ℕ → Type 0
OneLine [] = Unit {0}
OneLine (c ∷ cs) = ((c == 10) ≡ false) × OneLine cs

OneLine-append : (xs ys : List ℕ) → OneLine xs → OneLine ys → OneLine (xs ++ ys)
OneLine-append [] ys h k = k
OneLine-append (x ∷ xs) ys h k = (h.0, OneLine-append xs ys h.1 k)

show_digits-OneLine : (fuel n : ℕ) (out : List ℕ) → OneLine out → OneLine (show_digits fuel n out)
unfolding show_digits
show_digits-OneLine zero n out h = h
show_digits-OneLine (suc fuel) n out h = elim (Bool-cases (ltb n 10)) [
  | inl last ↦ rw last (ground arith, h)
  | inr more ↦ rw more (show_digits-OneLine fuel (n / 10) ((n % 10 + b'0') ∷ out) (ground arith, h))
]

column-OneLine : (n : ℕ) (rest : List ℕ) → OneLine rest → OneLine (column n rest)
unfolding show
column-OneLine n rest h = (refl, OneLine-append (show n) rest (show_digits-OneLine 20 n [] tt) h)

stat_line-OneLine : (c : Cpu) (rest : List ℕ) → OneLine rest → OneLine (stat_line c rest)
unfolding stat_line
stat_line-OneLine c rest h = (refl, (refl, (refl, (refl, columns))))
  where
    columns : OneLine (columns_of c rest)
    columns = column-OneLine c.user _ (
        column-OneLine c.nice _ (
          column-OneLine c.system _ (
            column-OneLine c.idle _ (
              column-OneLine c.iowait _ (
                column-OneLine c.irq _
                  (column-OneLine c.softirq _ (column-OneLine c.steal rest h)))))))

get_line_lem : (line more : List ℕ) → OneLine line → get_line (some (line ++ (10 ∷ more))) ≡ line
unfolding get_line
get_line_lem [] more h = refl
get_line_lem (c ∷ cs) more h = rw h.0 (ap (◌∷◌ c) (get_line_lem cs more h.1))

-- The word `cpu` is dropped.
read_word-stat_line :
    (c : Cpu) (rest : List ℕ)
    → read_word (some (stat_line c rest)) ≡ some (b' ' ∷ columns_of c rest)
unfolding read_word skip_space drop_word stat_line
read_word-stat_line c rest = refl

in_range : (a b : ℕ) → a + b ≤ long_max → (some (pos a) +? some (pos b)) ≡ some (pos (a + b))
unfolding add_long
in_range a b h = let low : leb (a + b) long_max ≡ true = ground arith in rw low refl

-- The first call, on an open stream.
first_call :
    (c : Cpu) (rest more : List ℕ)
    → total c ≤ long_max
    → OneLine rest
    → starts_with_digit rest ≡ false
    → get_cpu_stats (some (stat_line c rest ++ (10 ∷ more)))
      ≡ (some (pos (c.idle + c.iowait)), some (pos (total c)), none)
unfolding get_cpu_stats
first_call c rest more h line stop =
    rw
      (
        get_line_lem (stat_line c rest) more (stat_line-OneLine c rest line),
        read_word-stat_line c rest,
        read_long-space (columns_of c rest),
        read_long-show c.user _ (omega arith) refl,
        read_long-show c.nice _ (omega arith) refl,
        read_long-show c.system _ (omega arith) refl,
        read_long-show c.idle _ (omega arith) refl,
        read_long-show c.iowait _ (omega arith) refl,
        read_long-show c.irq _ (omega arith) refl,
        read_long-show c.softirq _ (omega arith) refl,
        read_long-show c.steal rest (omega arith) stop,
        in_range c.idle c.iowait (omega arith),
        in_range c.user c.nice (omega arith),
        in_range (c.user + c.nice) c.system (omega arith),
        in_range (c.user + c.nice + c.system) c.idle (omega arith),
        in_range (c.user + c.nice + c.system + c.idle) c.iowait (omega arith),
        in_range (c.user + c.nice + c.system + c.idle + c.iowait) c.irq (omega arith),
        in_range (c.user + c.nice + c.system + c.idle + c.iowait + c.irq) c.softirq (omega arith),
        in_range (c.user + c.nice + c.system + c.idle + c.iowait + c.irq + c.softirq) c.steal
            (omega arith),
      )
      refl

-- On the first line of `/proc/stat`, with any columns behind the eighth and any lines below it, and
-- with times whose sum is a `long`: the first call of `GetCPUStats` gives the idle time with the time
-- of waiting for input, and the sum of all eight times. After the call of `Init`, `_prevIdleTime` is
-- that sum and `_prevTotalTime` is 0, and the differences of the next `Monitor` are made of variables
-- that were never set.
pub cpu_stats_lem :
    (c : Cpu) (rest more : List ℕ)
    → total c ≤ long_max
    → OneLine rest
    → starts_with_digit rest ≡ false
    → let file : Input = some (stat_line c rest ++ (10 ∷ more)) in
      (get_cpu_stats file ≡ (some (pos (c.idle + c.iowait)), some (pos (total c)), none))
      × ((init_times file).prev_idle ≡ some (pos (total c)))
      × ((init_times file).prev_total ≡ some (pos 0))
      × ((sample (init_times file)).0 ≡ (none, none))
unfolding init_times sample sub_long
cpu_stats_lem c rest more h line stop =
    let first = first_call c rest more h line stop in (first, ap (λ r. r.1) first, refl, refl)
