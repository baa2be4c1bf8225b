-- ===== src/Logging/Format/Stamp.antt =====
-- The printed times of the logging code can be read back, and have a fixed length.
use server_dev_lib.Base.{
  ℕ, ◌+◌, ◌-◌, ◌*◌, ◌/◌, ◌%◌, ◌≤◌, ◌<◌, ◌≡◌, refl, ap, List, [], ◌∷◌, Option, none, some, arith,
  length,
}
use server_dev_lib.Logging.Format.{Time, local_time, message_time}
use server_dev_lib.Logging.Format.Digits.{show_four, two_lem, pad_three}

-- The values that a calendar and a clock give, with a year of four digits and a leap second.
pub record IsTime (t : Time) : Type 0 where
  pub year_low : 1000 ≤ t.year
  pub year_high : t.year < 10000
  pub month : t.month ≤ 12
  pub day : t.day ≤ 31
  pub hour : t.hour < 24
  pub minute : t.minute < 60
  pub second : t.second ≤ 60

-- A reader of the printed times, written apart from the printer.
number : List ℕ → ℕ → ℕ
number [] acc = acc
number (d ∷ ds) acc = number ds (acc * 10 + (d - b'0'))

unfoldable pub read_local_time : List ℕ → Option Time
unfolding number
read_local_time (y3 ∷ y2 ∷ y1 ∷ y0 ∷ m1 ∷ m0 ∷ d1 ∷ d0 ∷ dash ∷ h1 ∷ h0 ∷ n1 ∷ n0 ∷ s1 ∷ s0 ∷ []) =
    some (record {
      year = number (y3 ∷ y2 ∷ y1 ∷ y0 ∷ []) 0;
      month = number (m1 ∷ m0 ∷ []) 0;
      day = number (d1 ∷ d0 ∷ []) 0;
      hour = number (h1 ∷ h0 ∷ []) 0;
      minute = number (n1 ∷ n0 ∷ []) 0;
      second = number (s1 ∷ s0 ∷ []) 0;
    })
read_local_time _ = none

unfoldable pub read_message_time : List ℕ → Option (Time × ℕ)
unfolding number
read_message_time
      (y3 ∷ y2 ∷ y1 ∷ y0 ∷ dash ∷ m1 ∷ m0 ∷ dash' ∷ d1 ∷ d0 ∷ space ∷ h1 ∷ h0 ∷ colon ∷ n1 ∷ n0
        ∷ colon' ∷ s1 ∷ s0 ∷ dot ∷ l2 ∷ l1 ∷ l0 ∷ []) =
    some (
      record {
        year = number (y3 ∷ y2 ∷ y1 ∷ y0 ∷ []) 0;
        month = number (m1 ∷ m0 ∷ []) 0;
        day = number (d1 ∷ d0 ∷ []) 0;
        hour = number (h1 ∷ h0 ∷ []) 0;
        minute = number (n1 ∷ n0 ∷ []) 0;
        second = number (s1 ∷ s0 ∷ []) 0;
      },
      number (l2 ∷ l1 ∷ l0 ∷ []) 0,
    )
read_message_time _ = none

read_two : (n : ℕ) → number ((n / 10 + b'0') ∷ (n % 10 + b'0') ∷ []) 0 ≡ n
unfolding number
read_two n = omega arith

read_three :
    (n : ℕ)
    → n < 1000
    → number ((n / 100 + b'0') ∷ (n / 10 % 10 + b'0') ∷ (n % 10 + b'0') ∷ []) 0 ≡ n
unfolding number
read_three n h = omega arith

read_four :
    (n : ℕ)
    → n < 10000
    → number
        ((n / 1000 + b'0') ∷ (n / 100 % 10 + b'0') ∷ (n / 10 % 10 + b'0') ∷ (n % 10 + b'0') ∷ [])
        0
      ≡ n
unfolding number
read_four n h = omega arith

-- The printed time, digit by digit.
local_time_lem :
    (t : Time)
    → IsTime t
    → local_time t
      ≡ (t.year / 1000 + b'0')
        ∷ (t.year / 100 % 10 + b'0')
        ∷ (t.year / 10 % 10 + b'0')
        ∷ (t.year % 10 + b'0')
        ∷ (t.month / 10 + b'0')
        ∷ (t.month % 10 + b'0')
        ∷ (t.day / 10 + b'0')
        ∷ (t.day % 10 + b'0')
        ∷ b'-'
        ∷ (t.hour / 10 + b'0')
        ∷ (t.hour % 10 + b'0')
        ∷ (t.minute / 10 + b'0')
        ∷ (t.minute % 10 + b'0')
        ∷ (t.second / 10 + b'0')
        ∷ (t.second % 10 + b'0')
        ∷ []
unfolding local_time
local_time_lem t v =
    rw
      (
        show_four t.year v.year_low v.year_high,
        two_lem t.month (omega (arith, v.month)),
        two_lem t.day (omega (arith, v.day)),
        two_lem t.hour (omega (arith, v.hour)),
        two_lem t.minute (omega (arith, v.minute)),
        two_lem t.second (omega (arith, v.second)),
      )
      refl

message_time_lem :
    (t : Time) (milliseconds : ℕ)
    → IsTime t
    → milliseconds < 1000
    → message_time t milliseconds
      ≡ (t.year / 1000 + b'0')
        ∷ (t.year / 100 % 10 + b'0')
        ∷ (t.year / 10 % 10 + b'0')
        ∷ (t.year % 10 + b'0')
        ∷ b'-'
        ∷ (t.month / 10 + b'0')
        ∷ (t.month % 10 + b'0')
        ∷ b'-'
        ∷ (t.day / 10 + b'0')
        ∷ (t.day % 10 + b'0')
        ∷ b' '
        ∷ (t.hour / 10 + b'0')
        ∷ (t.hour % 10 + b'0')
        ∷ b':'
        ∷ (t.minute / 10 + b'0')
        ∷ (t.minute % 10 + b'0')
        ∷ b':'
        ∷ (t.second / 10 + b'0')
        ∷ (t.second % 10 + b'0')
        ∷ b'.'
        ∷ (milliseconds / 100 + b'0')
        ∷ (milliseconds / 10 % 10 + b'0')
        ∷ (milliseconds % 10 + b'0')
        ∷ []
unfolding message_time
message_time_lem t milliseconds v small =
    rw
      (
        show_four t.year v.year_low v.year_high,
        two_lem t.month (omega (arith, v.month)),
        two_lem t.day (omega (arith, v.day)),
        two_lem t.hour (omega (arith, v.hour)),
        two_lem t.minute (omega (arith, v.minute)),
        two_lem t.second (omega (arith, v.second)),
        pad_three milliseconds small,
      )
      refl

-- The time in the name of a log file, for every time of the calendar with a year of four digits, can
-- be read back from what is printed.
pub read_local_time-local_time : (t : Time) → IsTime t → read_local_time (local_time t) ≡ some t
unfolding read_local_time
read_local_time-local_time t v = rw (local_time_lem t v) (
    rw
      (
        read_four t.year v.year_high,
        read_two t.month,
        read_two t.day,
        read_two t.hour,
        read_two t.minute,
        read_two t.second,
      )
      refl)

-- The time in the head of a message, with its milliseconds, can be read back too.
pub read_message_time-message_time :
    (t : Time) (milliseconds : ℕ)
    → IsTime t
    → milliseconds < 1000
    → read_message_time (message_time t milliseconds) ≡ some (t, milliseconds)
unfolding read_message_time
read_message_time-message_time t milliseconds v small =
    rw (message_time_lem t milliseconds v small) (
      rw
        (
          read_four t.year v.year_high,
          read_two t.month,
          read_two t.day,
          read_two t.hour,
          read_two t.minute,
          read_two t.second,
          read_three milliseconds small,
        )
        refl)

pub length-local_time : (t : Time) → IsTime t → length (local_time t) ≡ 15
length-local_time t v = ap length (local_time_lem t v)

pub length-message_time :
    (t : Time) (milliseconds : ℕ)
    → IsTime t
    → milliseconds < 1000
    → length (message_time t milliseconds) ≡ 23
length-message_time t milliseconds v small = ap length (message_time_lem t milliseconds v small)
