-- ===== src/Logging/Format.antt =====
-- How the logging code prints: numbers and fixed columns of an output stream, the time in the name of a
-- log file (`GetLocalTime` of include/server/logging/LogFile.h), and the head of a message (`Init` of
-- include/server/logging/LogMessage.h).
mod Digits
pub mod Stamp
mod Tests
use server_dev_lib.Base.{
  ℕ, zero, suc, ◌+◌, ◌-◌, ◌/◌, ◌%◌, List, [], ◌∷◌, ◌++◌, ltb, if◌then◌else◌, length, replicate,
}
use server_dev_lib.Base.Text.{codes}

-- `stream << n`, on fuel: at most one round for each digit.
unfoldable pub show_digits : ℕ → ℕ → List ℕ → List ℕ
show_digits zero n out = out
show_digits (suc fuel) n out =
    let more = show_digits fuel (n / 10) ((n % 10 + b'0') ∷ out) in
    if ltb n 10 then (n + b'0') ∷ out else more

-- The numbers printed are below 2 ^ 64, of 20 digits at most.
unfoldable pub show : ℕ → List ℕ
unfolding show_digits
show n = show_digits 20 n []

-- `std::setw(width)` with a fill character: a longer text is printed whole.
unfoldable pub pad : ℕ → ℕ → List ℕ → List ℕ
pad width fill text = replicate (width - length text) fill ++ text

-- `std::setw(2)` after `std::setfill('0')`
unfoldable pub two : ℕ → List ℕ
unfolding show pad
two n = pad 2 b'0' (show n)

-- `std::tm`, with the year counted from 0 and the month from 1, as the code prints them.
pub record Time : Type 0 where
  pub year : ℕ
  pub month : ℕ
  pub day : ℕ
  pub hour : ℕ
  pub minute : ℕ
  pub second : ℕ

-- `GetLocalTime(stream)`
unfoldable pub local_time : Time → List ℕ
unfolding two show
local_time t =
    show t.year
    ++ (two t.month ++ (two t.day ++ (b'-' ∷ (two t.hour ++ (two t.minute ++ two t.second)))))

-- The time in the head of a message, with milliseconds.
unfoldable pub message_time : Time → ℕ → List ℕ
unfolding two show pad
message_time t milliseconds =
    show t.year
    ++ (b'-'
        ∷ (two t.month
            ++ (b'-'
                ∷ (two t.day
                    ++ (b' '
                        ∷ (two t.hour
                            ++ (b':'
                                ∷ (two t.minute
                                    ++ (b':'
                                        ∷ (two t.second
                                            ++ (b'.' ∷ pad 3 b'0' (show milliseconds))))))))))))

-- What the head of a message shows: the text of its level, the thread, the time, and the place.
pub record Head : Type 0 where
  pub level : List ℕ
  pub thread : List ℕ
  pub time : Time
  pub milliseconds : ℕ
  pub file : List ℕ
  pub func : List ℕ
  pub line : ℕ

-- `Init()` of `LogMessage`
unfoldable pub message_head : Head → List ℕ
message_head h =
    codes "[ "
    ++ (h.level
        ++ (codes " "
            ++ (h.thread
                ++ (codes " "
                    ++ (message_time h.time h.milliseconds
                        ++ (codes " "
                            ++ (pad 20 b' ' h.file
                                ++ (codes ":"
                                    ++ (pad 15 b' ' h.func
                                        ++ (codes ":"
                                            ++ (pad 5 b' ' (show h.line)
                                                ++ (codes " ]" ++ codes " --- "))))))))))))
