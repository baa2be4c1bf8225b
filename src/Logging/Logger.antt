-- ===== src/Logging/Logger.antt =====
-- `Logger` of include/server/logging/Logging.h: the threads that log, and the thread that flushes, which
-- takes the buffer under the lock and hands its messages to the sinks.
pub mod Order
pub mod Ending
use server_dev_lib.Base.{
  ℕ, ◌≡◌, ◌≢◌, refl, sym, ap, ◌∙◌, Bool, true, false, List, [], ◌∷◌, ◌++◌, append-nil, append_assoc,
  if◌then◌else◌, arith,
}

-- A message in a buffer: its bytes, and whether its level is FATAL.
pub record Entry : Type 0 where
  pub text : List ℕ
  pub fatal : Bool

-- Where the flushing thread is: before or in the wait of `Flush`; in the loop over `_backup_buf`, with
-- the messages that are left; returned; or past `std::abort()`.
pub data Place : Type 0 where
  collecting : Place
  writing : List Entry → Place
  returned aborted : Place

-- `flushed` lists the messages that every sink has got, oldest first.
pub record Logger : Type 0 where
  pub stop : Bool
  pub log_with_waiting : Bool
  pub buf : List Entry
  pub backup_buf : List Entry
  pub place : Place
  pub flushed : List Entry

-- What may happen: a thread calls `Buffering`; the flushing thread takes the lock; it handles the next
-- message of the loop, or leaves the loop; the destructor writes `_stop`.
pub data Act : Type 0 where
  buffering : Entry → Act
  collect flush_next destroy : Act

abbrev is_empty : List Entry → Bool
is_empty [] = true
is_empty (e ∷ es) = false

-- `Flush` under the lock: nothing happens while the wait's predicate is false, unless the wait has a
-- limit.
unfoldable pub collect_messages : Logger → Place → Logger
collect_messages l Place.collecting =
    if l.stop
    then record l { place = Place.returned }
    else (if is_empty l.buf
        then (if l.log_with_waiting then record l { place = Place.writing l.backup_buf } else l)
        else record l { buf = l.backup_buf; backup_buf = l.buf; place = Place.writing l.buf })
collect_messages l at = l

-- One round of the loop over `_backup_buf`, or its end.
unfoldable pub flush_message : Logger → Place → Logger
flush_message l (Place.writing []) = record l { backup_buf = []; place = Place.collecting }
flush_message l (Place.writing (e ∷ left)) =
    if e.fatal
    then record l {
      stop = true;
      buf = [];
      backup_buf = [];
      place = Place.aborted;
      flushed = l.flushed ++ (e ∷ []);
    }
    else record l { place = Place.writing left; flushed = l.flushed ++ (e ∷ []) }
flush_message l at = l

unfoldable pub step : Logger → Act → Logger
step l (Act.buffering e) = record l { buf = l.buf ++ (e ∷ []) }
step l Act.collect = collect_messages l l.place
step l Act.flush_next = flush_message l l.place
step l Act.destroy = record l { stop = true }

unfoldable pub run : Logger → List Act → Logger
run l [] = l
run l (a ∷ acts) = run (step l a) acts

-- `Logger()`
unfoldable pub init : Logger
init = record {
  stop = false;
  log_with_waiting = false;
  buf = [];
  backup_buf = [];
  place = Place.collecting;
  flushed = [];
}

-- The messages that the loop has still to hand on.
abbrev pub left_over : Place → List Entry
left_over (Place.writing left) = left
left_over _ = []

abbrev pub logged : List Act → List Entry
logged [] = []
logged (Act.buffering e ∷ acts) = e ∷ logged acts
logged (a ∷ acts) = logged acts

-- No message is FATAL.
abbrev pub NoneFatal : List Entry → Type 0
NoneFatal [] = Unit {0}
NoneFatal (e ∷ es) = (e.fatal ≡ false) × NoneFatal es

abbrev pub NoneDestroys : List Act → Type 0
NoneDestroys [] = Unit {0}
NoneDestroys (a ∷ acts) = (a ≢ Act.destroy) × NoneDestroys acts

-- The flushing thread is alive, and `_backup_buf` is empty while it waits.
abbrev pub IsTidy : Logger → Place → Type 0
IsTidy l Place.collecting = l.backup_buf ≡ []
IsTidy l (Place.writing left) = Unit {0}
IsTidy l _ = ⊥

abbrev pub all_of : Logger → List Entry
all_of l = l.flushed ++ (left_over l.place ++ l.buf)

-- A logger at work, with nothing FATAL in it.
pub record IsSound (l : Logger) : Type 0 where
  pub going : l.stop ≡ false
  pub tidy : IsTidy l l.place
  pub plain : NoneFatal (left_over l.place ++ l.buf)
