-- ===== src/Logging/Message/Trace.antt =====
-- The stack trace of a FATAL message of LogMessage.h, and the text of a message of any level and any
-- length.
use server_dev_lib.Base.{
  ℕ, ◌-◌, ◌≡◌, refl, ap, ◌∙◌, true, none, some, List, [], ◌∷◌, ◌++◌, take, append_assoc,
  if◌then◌else◌, Bool-cases, inl, inr, arith,
}
use server_dev_lib.Base.Text.{codes}
use server_dev_lib.Logging.Format.{message_head}
use server_dev_lib.Logging.Stream.{
  Stream, LogLevel, Message, is_fatal, open_stream, put, put_lem, flush,
}
use server_dev_lib.Logging.Message.{Call, create, head_of, stream_to, max_message_len}

-- One line for each symbol.
unfoldable pub frames : List (List ℕ) → List ℕ
frames [] = []
frames (symbol ∷ symbols) = 9 ∷ (symbol ++ (10 ∷ frames symbols))

-- `StackTrace()`, with the thread as it is printed and what `backtrace_symbols` gives.
unfoldable pub stack_trace : List ℕ → List (List ℕ) → List ℕ
unfolding frames
stack_trace thread [] = []
stack_trace thread (symbol ∷ symbols) =
    codes "Stack trace of thread " ++ (thread ++ (b':' ∷ 10 ∷ frames (symbol ∷ symbols)))

put-append : (xs ys : List ℕ) (s : Stream) → put ys (put xs s) ≡ put (xs ++ ys) s
unfolding put
put-append [] ys s = refl
put-append (x ∷ xs) ys s = put-append xs ys _

-- What is printed behind the text of a message.
abbrev pub ending : LogLevel → List ℕ → List ℕ
ending level trace = 10 ∷ (if is_fatal level then trace else [])

ended_stream :
    (level : LogLevel) (trace : List ℕ) (s : Stream)
    → (if is_fatal level then put trace (put (10 ∷ []) s) else put (10 ∷ []) s)
      ≡ put (ending level trace) s
ended_stream level trace s = elim (Bool-cases (is_fatal level)) [
  | inl fatal ↦ rw fatal (put-append (10 ∷ []) trace s)
  | inr plain ↦ rw plain refl
]

-- A message of any level, with any text streamed to it: what reaches the logger is its head, the text, a
-- newline and, if it is FATAL, the stack trace, as far as the buffer of the message has room for them.
pub message_text :
    (level : LogLevel) (c : Call) (text : List ℕ) (symbols : List (List ℕ))
    → let trace = stack_trace c.thread symbols in
      (sent : Message) × (s : Stream) × (rest : Message) × (flush trace true
          (stream_to text (create level c))
        ≡ (some sent, rest))
      × (sent.content ≡ some (s, true))
      × (s.text
          ≡ take
              (max_message_len - 2)
              (message_head (head_of level c) ++ (text ++ ending level trace)))
      × (flush trace true rest ≡ (none, rest))
unfolding stream_to create flush open_stream
message_text level c text symbols =
    let trace = stack_trace c.thread symbols in
    let head = message_head (head_of level c) in
    let empty = open_stream max_message_len in
    let streamed = put text (put head empty) in
    let s : Stream =
      if is_fatal level then put trace (put (10 ∷ []) streamed) else put (10 ∷ []) streamed in
    let whole : s ≡ put (head ++ (text ++ ending level trace)) empty =
      ended_stream level trace streamed
      ∙ ap (put (ending level trace)) (put-append head text empty)
      ∙ put-append (head ++ text) (ending level trace) empty
      ∙ ap (λ t. put t empty) (append_assoc head text (ending level trace)) in
    (
      record { level = level; content = some (s, true) },
      s,
      record { level = level; content = none },
      refl,
      refl,
      ap (λ (q : Stream). q.text) whole
          ∙ put_lem (head ++ (text ++ ending level trace)) empty (omega arith),
      refl,
    )
