-- ===== src/Logging/Journal.antt =====
-- A message from its construction (include/server/logging/LogMessage.h) to the bytes of a log file
-- (include/server/logging/LogFile.h).
mod Tests
use server_dev_lib.Base.{
  ℕ, ◌+◌, ◌≤◌, ◌≡◌, refl, sym, ap, ◌∙◌, subst, Bool, true, false, Option, none, some, List, [], ◌∷◌,
  ◌++◌, ltb, if◌then◌else◌, length, Bool-cases, inl, inr,
}
use server_dev_lib.Base.Map.{
  lookup, update, emplace, or_else, lookup-emplace, lookup-update_same, list_eq, list_beq,
  list_beq_iff,
}
use server_dev_lib.Logging.Format.{message_head}
use server_dev_lib.Logging.Stream.{Stream, LogLevel, Message, is_fatal, flush as finish}
use server_dev_lib.Logging.Message.{Call, head_of, create, stream_to, FitsColumns, message_lem}
use server_dev_lib.Logging.LogFile.{LogFile, append_file, rotate, init_file_name, content, flush}

-- The file that gets the next message: another one when the open file is past the limit.
abbrev pub target : ℕ → List ℕ → LogFile → List ℕ
target per_file_size name f = if ltb per_file_size f.total_size then name else f.filename

-- What a write at the end of the open file leaves.
record Appended (str : List ℕ) (k before : List ℕ) (out : Option LogFile) : Type 0 where
  after : LogFile
  done : out ≡ some after
  same : after.filename ≡ k
  longer : content k after ≡ before ++ str

append_file-Appended :
    (str b : List ℕ) (f : LogFile)
    → lookup f.filename f.disk ≡ some b
    → Appended str f.filename b (append_file true str f)
unfolding append_file content
append_file-Appended str b f there = record {
  after = record f {
    total_size = f.total_size + length str;
    disk = update f.filename (λ old. old ++ str) f.disk;
  };
  done = refl;
  same = refl;
  longer =
      ap (λ o. or_else o []) (lookup-update_same f.filename (λ old. old ++ str) f.disk b there);
}

flush-Appended :
    (per_file_size : ℕ) (name str b : List ℕ) (f : LogFile)
    → lookup f.filename f.disk ≡ some b
    → Appended str
        (target per_file_size name f)
        (content (target per_file_size name f) f)
        (flush per_file_size name true true str f)
unfolding flush rotate init_file_name content
flush-Appended per_file_size name str b f there =
    elim (Bool-cases (ltb per_file_size f.total_size)) [
      | inl over ↦
          let opened : LogFile = record f {
            filename = name;
            total_size = 0;
            disk = emplace name [] f.disk;
          } in
          let own : list_beq name name ≡ true = (list_beq_iff name name).1 refl in
          let found : lookup name opened.disk ≡ some (or_else (lookup name f.disk) []) =
            lookup-emplace name name [] f.disk ∙ rw own refl in
          rw over (append_file-Appended str (or_else (lookup name f.disk) []) opened found)
      | inr within ↦ rw (within, there) (append_file-Appended str b f there)
    ]

-- A message that is not FATAL, from a place that fits its columns, whose text with the thread is not
-- longer than 2915 bytes, and a log file that stands on the disk, on a system that opens and writes: what
-- the message sends, once it is flushed into the file, stands with its head, the whole text and a newline
-- at the end of the file that gets it, which is a new one when the open one is past the limit.
pub journal_lem :
    (level : LogLevel) (c : Call) (text trace : List ℕ) (per_file_size : ℕ) (name b : List ℕ)
    (f : LogFile)
    → is_fatal level ≡ false
    → FitsColumns c
    → length text + length c.thread ≤ 2915
    → lookup f.filename f.disk ≡ some b
    → let k = target per_file_size name f in
      (sent : Message) × (s : Stream) × (rest : Message) × (f' : LogFile) × (finish trace true
          (stream_to text (create level c))
        ≡ (some sent, rest))
      × (sent.content ≡ some (s, true))
      × (flush per_file_size name true true s.text f ≡ some f')
      × (f'.filename ≡ k)
      × (content k f' ≡ content k f ++ (message_head (head_of level c) ++ (text ++ (10 ∷ []))))
journal_lem level c text trace per_file_size name b f plain v fits there =
    let (sent, s, rest, finished, holds, shows) = message_lem level c text trace plain v fits in
    let a = flush-Appended per_file_size name s.text b f there in
    let k = target per_file_size name f in
    (
      sent,
      s,
      rest,
      a.after,
      finished,
      holds,
      a.done,
      a.same,
      a.longer ∙ ap (λ t. content k f ++ t) shows,
    )
