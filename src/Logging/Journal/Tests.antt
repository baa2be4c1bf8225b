-- ===== src/Logging/Journal/Tests.antt =====
-- A message that is logged to a file, at an input that meets the hypotheses.
use server_dev_lib.Base.{◌≡◌, refl, true, some, [], ◌∷◌, ◌++◌, arith}
use server_dev_lib.Base.Map.{list_eq, lookup}
use server_dev_lib.Base.Text.{codes}
use server_dev_lib.Logging.Format.{message_head, show}
use server_dev_lib.Logging.Stream.{Stream, LogLevel, Message, flush as finish}
use server_dev_lib.Logging.Message.{Call, head_of, create, stream_to}
use server_dev_lib.Logging.LogFile.{LogFile, content, flush}
use server_dev_lib.Logging.Journal.{journal_lem}

abbrev place : Call
place = record {
  thread = codes "140";
  time = record { year = 2024; month = 5; day = 31; hour = 12; minute = 0; second = 0 };
  milliseconds = 7;
  file = codes "Channel.h";
  func = codes "Read";
  line = 74;
}

-- A file of nine bytes, past a limit of eight.
abbrev journal : LogFile
journal = record {
  filename = codes "a";
  total_size = 9;
  disk = (codes "a", codes "123456789") ∷ [];
}

journal_lem_example :
    (sent : Message) × (s : Stream) × (rest : Message) × (f' : LogFile) × (finish [] true
        (stream_to (codes "ok") (create LogLevel.info place))
      ≡ (some sent, rest))
    × (sent.content ≡ some (s, true))
    × (flush 8 (codes "b") true true s.text journal ≡ some f')
    × (f'.filename ≡ codes "b")
    × (content (codes "b") f'
        ≡ content (codes "b") journal
          ++ (message_head (head_of LogLevel.info place) ++ (codes "ok" ++ (10 ∷ []))))
unfolding show lookup
journal_lem_example =
    journal_lem LogLevel.info place (codes "ok") [] 8 (codes "b") (codes "123456789") journal refl
      (record {
        clock = omega arith;
        small = omega arith;
        file = omega arith;
        func = omega arith;
        line = omega arith;
      })
      (omega arith) refl
