-- ===== src/Logging/Tests.antt =====
-- Tests of logging, and its theorems at inputs that meet their hypotheses.
use server_dev_lib.Base.{ℕ, ◌≡◌, refl, true, false, some, List, [], ◌∷◌, ◌++◌, arith}
use server_dev_lib.Base.Map.{lookup, list_eq}
use server_dev_lib.Logging.Stream.{Stream, put, open_stream, put_char}
use server_dev_lib.Logging.Logger.{
  Logger, Entry, Place, Act, run, step, init, collect_messages, flush_message, left_over,
}
use server_dev_lib.Logging.Logger.Order.{log_fifo}
use server_dev_lib.Logging.LogFile.{LogFile, IsBounded, content, flush, flush-IsBounded}

abbrev small : Stream
small = record { room = 3; text = 1 ∷ 2 ∷ [] }

-- A buffer of five bytes keeps three.
five_bytes : (put (1 ∷ 2 ∷ 3 ∷ 4 ∷ []) (open_stream 5)).text ≡ 1 ∷ 2 ∷ 3 ∷ []
unfolding put open_stream put_char
five_bytes = refl

abbrev plain : ℕ → Entry
plain n = record { text = n ∷ []; fatal = false }

abbrev deadly : Entry
deadly = record { text = 9 ∷ []; fatal = true }

abbrev at_work : Logger
at_work = record {
  stop = false;
  log_with_waiting = false;
  buf = plain 2 ∷ [];
  backup_buf = plain 1 ∷ [];
  place = Place.writing (plain 1 ∷ []);
  flushed = plain 0 ∷ [];
}

abbrev waiting : Logger
waiting = record {
  stop = false;
  log_with_waiting = false;
  buf = plain 2 ∷ [];
  backup_buf = [];
  place = Place.collecting;
  flushed = [];
}

two_logged :
    (run init (
      Act.buffering (plain 1)
      ∷ Act.collect
      ∷ Act.buffering (plain 2)
      ∷ Act.flush_next
      ∷ Act.flush_next
      ∷ Act.collect
      ∷ Act.flush_next
      ∷ [])).flushed
    ≡ plain 1 ∷ plain 2 ∷ []
unfolding run step init collect_messages flush_message
two_logged = refl

abbrev acts : List Act
acts = Act.flush_next ∷ Act.buffering (plain 3) ∷ []

log_fifo_example :
    (run at_work acts).flushed ++ (left_over (run at_work acts).place ++ (run at_work acts).buf)
    ≡ plain 0 ∷ plain 1 ∷ plain 2 ∷ plain 3 ∷ []
log_fifo_example =
    log_fifo at_work acts (record { going = refl; tidy = tt; plain = (refl, (refl, tt)) })
      ((λ e. cc), ((λ e. cc), tt)) (refl, tt)

abbrev at_fatal : Logger
at_fatal = record {
  stop = false;
  log_with_waiting = false;
  buf = plain 2 ∷ [];
  backup_buf = deadly ∷ plain 1 ∷ [];
  place = Place.writing (deadly ∷ plain 1 ∷ []);
  flushed = plain 0 ∷ [];
}

-- A file with three bytes, over a limit of two.
abbrev over_limit : LogFile
over_limit = record { filename = 7 ∷ []; total_size = 3; disk = (7 ∷ [], 1 ∷ 2 ∷ 3 ∷ []) ∷ [] }

over_limit-IsBounded : IsBounded 2 1 over_limit
unfolding content lookup
over_limit-IsBounded = record {
  exists = (1 ∷ 2 ∷ 3 ∷ [], refl);
  counted = omega arith;
  open_bound = omega arith;
  bound = λ k. ground arith;
}

flush-IsBounded_example :
    (f' : LogFile) × (flush 2 (8 ∷ []) true true (4 ∷ []) over_limit ≡ some f') × IsBounded 2 1 f'
unfolding lookup
flush-IsBounded_example =
    flush-IsBounded 2 1 (8 ∷ []) (4 ∷ []) over_limit (omega arith) refl over_limit-IsBounded
