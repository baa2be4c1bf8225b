-- ===== src/Logging/Message.antt =====
-- A message of include/server/logging/LogMessage.h from its construction to the sinks: the head, what is
-- streamed behind it, and the newline.
pub mod Trace
mod Tests
use server_dev_lib.Base.{
  ℕ, ◌+◌, ◌-◌, ◌≤◌, ◌<◌, ◌≡◌, refl, ap, ◌∙◌, true, false, none, some, List, [], ◌∷◌, ◌++◌, length,
  length-append, append_assoc, arith, replicate, length-replicate,
}
use server_dev_lib.Base.Text.{codes}
use server_dev_lib.Logging.Format.{Time, Head, message_head, show, pad}
use server_dev_lib.Logging.Format.Stamp.{IsTime, length-message_time}
use server_dev_lib.Logging.Stream.{
  Stream, LogLevel, Message, is_fatal, open_stream, put, put_whole, flush,
}

-- `LevelToString`
abbrev pub level_text : LogLevel → List ℕ
level_text LogLevel.info = codes "INFO "
level_text LogLevel.warn = codes "WARN"
level_text LogLevel.error = codes "ERROR"
level_text LogLevel.fatal = codes "FATAL"

-- `MAX_MESSAGE_LEN`
abbrev pub max_message_len : ℕ
max_message_len = 3000

-- What `LogMessage(level, filename, func, line)` finds: the thread as it is printed, and the clock.
pub record Call : Type 0 where
  pub thread : List ℕ
  pub time : Time
  pub milliseconds : ℕ
  pub file : List ℕ
  pub func : List ℕ
  pub line : ℕ

abbrev pub head_of : LogLevel → Call → Head
head_of level c = record {
  level = level_text level;
  thread = c.thread;
  time = c.time;
  milliseconds = c.milliseconds;
  file = c.file;
  func = c.func;
  line = c.line;
}

-- `LogMessage(level, filename, func, line)`
unfoldable pub create : LogLevel → Call → Message
create level c = record {
  level = level;
  content = some (put (message_head (head_of level c)) (open_stream max_message_len), false);
}

-- `msg.Stream() << text`
unfoldable pub stream_to : List ℕ → Message → Message
stream_to text m = elim m.content [
  | none ↦ m
  | some (s, flushed) ↦ record m { content = some (put text s, flushed) }
]

length-pad :
    (width fill : ℕ) (text : List ℕ) → length text ≤ width → length (pad width fill text) ≡ width
unfolding pad
length-pad width fill text h = omega (
  arith,
  length-append (replicate (width - length text) fill) text,
  length-replicate (width - length text) fill,
)

length-level_text : (level : LogLevel) → length (level_text level) ≤ 5
length-level_text LogLevel.info = omega arith
length-level_text LogLevel.warn = omega arith
length-level_text LogLevel.error = omega arith
length-level_text LogLevel.fatal = omega arith

-- A place that fits its columns.
pub record FitsColumns (c : Call) : Type 0 where
  pub clock : IsTime c.time
  pub small : c.milliseconds < 1000
  pub file : length c.file ≤ 20
  pub func : length c.func ≤ 15
  pub line : length (show c.line) ≤ 5

-- The head of a message takes 82 bytes at most, and those of the thread.
length-message_head :
    (level : LogLevel) (c : Call)
    → FitsColumns c
    → length (message_head (head_of level c)) ≤ 82 + length c.thread
unfolding message_head
length-message_head level c v = omega (
  arith,
  length-append {0},
  length-level_text level,
  length-message_time c.time c.milliseconds v.clock v.small,
  length-pad 20 b' ' c.file v.file,
  length-pad 15 b' ' c.func v.func,
  length-pad 5 b' ' (show c.line) v.line,
)

-- A message that is not FATAL, from a place that fits its columns, whose text with the thread is not
-- longer than 2915 bytes: what reaches the logger is the head, the whole text and a newline.
pub message_lem :
    (level : LogLevel) (c : Call) (text trace : List ℕ)
    → is_fatal level ≡ false
    → FitsColumns c
    → length text + length c.thread ≤ 2915
    → (sent : Message) × (s : Stream) × (rest : Message) × (flush trace true
          (stream_to text (create level c))
        ≡ (some sent, rest))
      × (sent.content ≡ some (s, true))
      × (s.text ≡ message_head (head_of level c) ++ (text ++ (10 ∷ [])))
unfolding stream_to create flush open_stream
message_lem level c text trace plain v fits =
    let head = message_head (head_of level c) in
    let empty = open_stream max_message_len in
    let short : length head ≤ 82 + length c.thread = length-message_head level c v in
    let longer : length (head ++ text) ≡ length head + length text = length-append head text in
    let with_head : put head empty ≡ record empty { text = head } =
      put_whole head empty (omega arith) in
    let with_text : put text (record empty { text = head }) ≡ record empty { text = head ++ text } =
      put_whole text (record empty { text = head }) (omega arith) in
    let with_end : put (10 ∷ []) (record empty { text = head ++ text })
        ≡ record empty { text = (head ++ text) ++ (10 ∷ []) } =
      put_whole (10 ∷ []) (record empty { text = head ++ text }) (omega (arith, longer)) in
    let finished : put (10 ∷ []) (put text (put head empty))
        ≡ record empty { text = (head ++ text) ++ (10 ∷ []) } =
      ap (λ s. put (10 ∷ []) (put text s)) with_head ∙ ap (put (10 ∷ [])) with_text ∙ with_end in
    (
      record { level = level; content = some (put (10 ∷ []) (put text (put head empty)), true) },
      record empty { text = (head ++ text) ++ (10 ∷ []) },
      record { level = level; content = none },
      rw plain refl,
      ap (λ s. some (s, true)) finished,
      append_assoc head text (10 ∷ []),
    )
