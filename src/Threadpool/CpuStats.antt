-- ===== src/Threadpool/CpuStats.antt =====
-- `GetCPUStats` of include/server/threadpool/ThreadPool.h: the first line of `/proc/stat`, read with
-- `>>`, and what `Init` and `Monitor` do with it.
mod Fields
pub mod Once
mod Tests
use server_dev_lib.Base.{
  ℕ, ◌+◌, ◌-◌, ◌*◌, ◌^◌, Bool, true, false, ◌&&◌, ◌||◌, not, Option, none, some, List, [], ◌∷◌,
  ◌==◌, ltb, leb, if◌then◌else◌,
}
use server_dev_lib.Base.Int.{ℤ, pos, negsuc}

-- `std::isspace`
abbrev pub is_space : ℕ → Bool
is_space c = c == b' ' || (leb 9 c && leb c 13)

abbrev pub is_digit : ℕ → Bool
is_digit c = leb b'0' c && leb c b'9'

-- The text that a stream has left; none once an extraction has failed.
abbrev pub Input : Type 0
Input = Option (List ℕ)

-- `std::getline(file, line)`; a stream that cannot be read leaves the line empty.
unfoldable pub get_line : Input → List ℕ
get_line none = []
get_line (some []) = []
get_line (some (c ∷ cs)) = let rest = get_line (some cs) in if c == 10 then [] else c ∷ rest

-- What `>>` leaves out.
unfoldable pub skip_space : List ℕ → List ℕ
skip_space [] = []
skip_space (c ∷ cs) = let rest = skip_space cs in if is_space c then rest else c ∷ cs

unfoldable pub drop_word : List ℕ → List ℕ
drop_word [] = []
drop_word (c ∷ cs) = let rest = drop_word cs in if is_space c then c ∷ cs else rest

-- `ss >> cpu`, whose value is not used.
unfoldable pub read_word : Input → Input
unfolding skip_space drop_word
read_word none = none
read_word (some text) = elim (skip_space text) [ [] ↦ none | c ∷ cs ↦ some (drop_word (c ∷ cs)) ]

-- The digits in front of a text, as a number, and what is behind them.
unfoldable pub read_digits : ℕ → List ℕ → ℕ × List ℕ
read_digits n [] = (n, [])
read_digits n (c ∷ cs) =
    let more = read_digits (n * 10 + (c - b'0')) cs in if is_digit c then more else (n, c ∷ cs)

abbrev starts_with_digit : List ℕ → Bool
starts_with_digit [] = false
starts_with_digit (c ∷ cs) = is_digit c

-- The largest `long`, of 64 bits.
abbrev pub long_max : ℕ
long_max = 2 ^ 63 - 1

-- The value that an extraction stores, none when it stores none, and the stream behind it.
abbrev pub Read : Type 0
Read = Option ℤ × Input

-- Digits behind a sign: without any, 0 is stored, and past the range of `long` its bound is; both fail.
unfoldable pub read_positive : List ℕ → Read
unfolding read_digits
read_positive text =
    let (n, rest) = read_digits 0 text in
    if not (starts_with_digit text)
    then (some (pos 0), none)
    else (if leb n long_max then (some (pos n), some rest) else (some (pos long_max), none))

abbrev opposite : ℕ → ℤ
opposite ℕ.zero = pos 0
opposite (ℕ.suc n) = negsuc n

unfoldable pub read_negative : List ℕ → Read
unfolding read_digits
read_negative text =
    let (n, rest) = read_digits 0 text in
    if not (starts_with_digit text)
    then (some (pos 0), none)
    else (if leb n (long_max + 1)
        then (some (opposite n), some rest)
        else (some (negsuc long_max), none))

-- `ss >> value` for a `long`: a stream that has failed, or has nothing but spaces left, stores nothing.
unfoldable pub read_long : Input → Read
unfolding skip_space read_positive read_negative
read_long none = (none, none)
read_long (some text) = elim (skip_space text) [
  | [] ↦ (none, none)
  | c ∷ cs ↦
      if c == b'-'
      then read_negative cs
      else (if c == b'+' then read_positive cs else read_positive (c ∷ cs))
]

abbrev minus : ℕ → ℕ → ℤ
minus a b = if leb b a then pos (a - b) else negsuc (b - a - 1)

infixl 65 ◌+ℤ◌
abbrev pub ◌+ℤ◌ : ℤ → ℤ → ℤ
pos a +ℤ pos b = pos (a + b)
pos a +ℤ negsuc b = minus a (b + 1)
negsuc a +ℤ pos b = minus b (a + 1)
negsuc a +ℤ negsuc b = negsuc (a + b + 1)

abbrev in_long : ℤ → Option ℤ
in_long (pos n) = if leb n long_max then some (pos n) else none
in_long (negsuc n) = if leb n long_max then some (negsuc n) else none

-- A sum of two `long` variables: none where one has no value or the sum is not a `long`, which is
-- undefined.
unfoldable pub add_long : Option ℤ → Option ℤ → Option ℤ
add_long (some a) (some b) = in_long (a +ℤ b)
add_long _ _ = none

infixl 65 ◌+?◌
abbrev pub ◌+?◌ : Option ℤ → Option ℤ → Option ℤ
a +? b = add_long a b

abbrev negate : ℤ → ℤ
negate (pos n) = opposite n
negate (negsuc n) = pos (n + 1)

-- A difference of two, likewise.
unfoldable pub sub_long : Option ℤ → Option ℤ → Option ℤ
sub_long (some a) (some b) = in_long (a +ℤ negate b)
sub_long _ _ = none

-- `GetCPUStats(idle_time, total_time)` on the static stream: the two times, and the stream, closed.
unfoldable pub get_cpu_stats : Input → Option ℤ × Option ℤ × Input
unfolding get_line read_word read_long add_long
get_cpu_stats file =
    let s0 = read_word (some (get_line file)) in
    let (user, s1) = read_long s0 in
    let (nice, s2) = read_long s1 in
    let (system, s3) = read_long s2 in
    let (idle, s4) = read_long s3 in
    let (iowait, s5) = read_long s4 in
    let (irq, s6) = read_long s5 in
    let (softirq, s7) = read_long s6 in
    let (steal, s8) = read_long s7 in
    (idle +? iowait, user +? nice +? system +? idle +? iowait +? irq +? softirq +? steal, none)

-- The stream, `_prevIdleTime` and `_prevTotalTime`.
pub record Sampler : Type 0 where
  pub file : Input
  pub prev_idle : Option ℤ
  pub prev_total : Option ℤ

-- `_prevIdleTime(0)` and `_prevTotalTime(0)`, and `GetCPUStats(_prevIdleTime, _prevIdleTime)` of `Init`:
-- the total is stored last.
unfoldable pub init_times : Input → Sampler
unfolding get_cpu_stats
init_times file =
    let (idle, total, rest) = get_cpu_stats file in
    record { file = rest; prev_idle = total; prev_total = some (pos 0) }

-- The readings of `Monitor`: the two differences that the percentage is made of.
unfoldable pub sample : Sampler → (Option ℤ × Option ℤ) × Sampler
unfolding get_cpu_stats sub_long
sample s =
    let (idle, total, rest) = get_cpu_stats s.file in
    (
      (sub_long idle s.prev_idle, sub_long total s.prev_total),
      record { file = rest; prev_idle = idle; prev_total = total },
    )
