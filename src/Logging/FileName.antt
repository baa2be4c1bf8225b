-- ===== src/Logging/FileName.antt =====
-- `InitFileName` of include/server/logging/LogFile.h: the name of a log file, which is printed into an
-- array of 60 bytes and read back as a string.
mod Tests
use server_dev_lib.Base.{
  ℕ, ◌+◌, ◌-◌, ◌≤◌, ◌<◌, ◌≡◌, ◌≢◌, refl, sym, ap, ◌∙◌, subst, List, [], ◌∷◌, ◌++◌, Option, none,
  some, ◌==◌, if◌then◌else◌, length, take, drop, take_all, take-append, drop-append, drop_all,
  take-front, drop-front, length-append, length-take, false, copy_at, replicate, arith, append-nil,
}
use server_dev_lib.Base.Map.{map_option}
use server_dev_lib.Base.Text.{codes}
use server_dev_lib.Logging.Format.{Time, local_time, show}
use server_dev_lib.Logging.Format.Stamp.{
  IsTime, read_local_time, read_local_time-local_time, length-local_time,
}
use server_dev_lib.Logging.Stream.{open_stream, put, put_lem}

-- The parts of a name that stay the same while the program runs: `GlobalConfig._logs_dir`, and what
-- `GetProgramName`, `GetHostName` and `GetPID` print.
pub record Origin : Type 0 where
  pub logs_dir : List ℕ
  pub program : List ℕ
  pub host : List ℕ
  pub pid : ℕ

unfoldable pub name_front : Origin → List ℕ
name_front o = o.logs_dir ++ (o.program ++ (codes "_" ++ (o.host ++ codes "_")))

unfoldable pub name_back : Origin → List ℕ
name_back o = codes "_" ++ (show o.pid ++ codes ".log")

-- All that is streamed.
unfoldable pub full_name : Origin → Time → List ℕ
full_name o t = name_front o ++ (local_time t ++ name_back o)

-- A `char *` as a string: the bytes before the first 0. `none` is a read past the array.
unfoldable pub c_string : List ℕ → Option (List ℕ)
c_string [] = none
c_string (b ∷ bs) = let rest = map_option (◌∷◌ b) (c_string bs) in if b == 0 then some [] else rest

-- `MAX_FILENAME_SIZE`
abbrev pub max_filename_size : ℕ
max_filename_size = 60

-- The name that is opened, where `array` is what stands in `filename` before.
unfoldable pub file_name : List ℕ → Origin → Time → Option (List ℕ)
file_name array o t =
    c_string (copy_at array 0 (put (full_name o t) (open_stream max_filename_size)).text)

-- What the array gets.
printed :
    (o : Origin) (t : Time)
    → (put (full_name o t) (open_stream max_filename_size)).text ≡ take 58 (full_name o t)
unfolding open_stream
printed o t = put_lem (full_name o t) (open_stream max_filename_size) (omega arith)

abbrev pub NoZero : List ℕ → Type 0
NoZero [] = Unit {0}
NoZero (b ∷ bs) = (b ≢ 0) × NoZero bs

NoZero-take : (n : ℕ) (bs : List ℕ) → NoZero bs → NoZero (take n bs)
NoZero-take ℕ.zero bs h = tt
NoZero-take (ℕ.suc n) [] h = tt
NoZero-take (ℕ.suc n) (b ∷ bs) h = (h.0, NoZero-take n bs h.1)

c_string-copy_at :
    (n : ℕ) (bs : List ℕ)
    → NoZero bs
    → length bs < n
    → c_string (copy_at (replicate n 0) 0 bs) ≡ some bs
unfolding c_string copy_at
c_string-copy_at ℕ.zero bs h fits = absurd (omega arith)
c_string-copy_at (ℕ.suc n) [] h fits = refl
c_string-copy_at (ℕ.suc n) (b ∷ bs) h fits =
    let other : (b == 0) ≡ false = ground (arith, h.0) in
    rw other (ap (map_option (◌∷◌ b)) (c_string-copy_at n bs h.1 (omega arith)))

-- Into an array of zeros, a name without a zero byte is cut to 58 bytes.
file_name-zeroed :
    (o : Origin) (t : Time)
    → NoZero (full_name o t)
    → file_name (replicate max_filename_size 0) o t ≡ some (take 58 (full_name o t))
unfolding file_name
file_name-zeroed o t h =
    ap (λ text. c_string (copy_at (replicate max_filename_size 0) 0 text)) (printed o t)
    ∙ c_string-copy_at max_filename_size (take 58 (full_name o t))
        (NoZero-take 58 (full_name o t) h) (omega (arith, length-take 58 (full_name o t)))

-- What is between two fixed texts is determined by the whole, if its length is.
middle_injective :
    (front back xs ys : List ℕ)
    → length xs ≡ length ys
    → front ++ (xs ++ back) ≡ front ++ (ys ++ back)
    → xs ≡ ys
middle_injective front back xs ys same whole =
    let rest : xs ++ back ≡ ys ++ back =
      sym (drop-front front (xs ++ back))
      ∙ ap (drop (length front)) whole
      ∙ drop-front front (ys ++ back) in
    sym (take-front xs back)
    ∙ ap (take (length xs)) rest
    ∙ ap (λ n. take n (ys ++ back)) same
    ∙ take-front ys back

-- Two names that fit their array of zeros, of the same program and without a zero byte, made at different
-- times of the calendar, with years of four digits, are different.
pub names_differ :
    (o : Origin) (t u : Time)
    → IsTime t
    → IsTime u
    → NoZero (full_name o t)
    → NoZero (full_name o u)
    → length (full_name o t) ≤ 58
    → t ≢ u
    → file_name (replicate max_filename_size 0) o t ≢ file_name (replicate max_filename_size 0) o u
unfolding full_name
names_differ o t u v w h k fits different e =
    let same_length : length (local_time t) ≡ length (local_time u) =
      length-local_time t v ∙ sym (length-local_time u w) in
    let fits' : length (full_name o u) ≤ 58 = omega (
      arith,
      fits,
      same_length,
      length-append (name_front o) (local_time t ++ name_back o),
      length-append (name_front o) (local_time u ++ name_back o),
      length-append (local_time t) (name_back o),
      length-append (local_time u) (name_back o),
    ) in
    let cut : take 58 (full_name o t) ≡ take 58 (full_name o u) =
      cc (file_name-zeroed o t h, file_name-zeroed o u k, e) in
    let whole : full_name o t ≡ full_name o u =
      sym (take_all 58 (full_name o t) fits) ∙ cut ∙ take_all 58 (full_name o u) fits' in
    let times : local_time t ≡ local_time u =
      middle_injective (name_front o) (name_back o) (local_time t) (local_time u) same_length
        whole in
    let read : some t ≡ some u =
      sym (read_local_time-local_time t v)
      ∙ ap read_local_time times
      ∙ read_local_time-local_time u w in
    different (cc read)

take-long : (n : ℕ) (xs ys : List ℕ) → n ≤ length xs → take n (xs ++ ys) ≡ take n xs
take-long n xs ys h =
    let none_left : n - length xs ≡ 0 = omega arith in
    rw (take-append n xs ys, none_left) (append-nil (take n xs))

-- Where the directory, the program and the host leave no room in the array for the time, the names of
-- all times are the same.
names_collide :
    (array : List ℕ) (o : Origin) (t u : Time)
    → 58 ≤ length (name_front o)
    → file_name array o t ≡ file_name array o u
unfolding file_name full_name
names_collide array o t u long =
    ap (λ text. c_string (copy_at array 0 text))
      (printed o t
        ∙ take-long 58 (name_front o) (local_time t ++ name_back o) long
        ∙ sym (take-long 58 (name_front o) (local_time u ++ name_back o) long)
        ∙ sym (printed o u))
