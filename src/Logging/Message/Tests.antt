-- ===== src/Logging/Message/Tests.antt =====
-- Messages with a stack trace.
use server_dev_lib.Base.{◌-◌, ◌≡◌, refl, true, none, some, [], ◌∷◌, ◌++◌, take}
use server_dev_lib.Base.Text.{codes}
use server_dev_lib.Logging.Format.{message_head}
use server_dev_lib.Logging.Stream.{Stream, LogLevel, Message, flush}
use server_dev_lib.Logging.Message.{Call, create, head_of, stream_to, max_message_len}
use server_dev_lib.Logging.Message.Trace.{stack_trace, message_text}

abbrev place : Call
place = record {
  thread = codes "140";
  time = record { year = 2024; month = 5; day = 31; hour = 12; minute = 0; second = 0 };
  milliseconds = 7;
  file = codes "Channel.h";
  func = codes "Read";
  line = 74;
}

traces :
    stack_trace (codes "140") (codes "main" ∷ codes "start" ∷ [])
    ≡ codes "Stack trace of thread 140:"
      ++ 10 ∷ 9 ∷ (codes "main" ++ 10 ∷ 9 ∷ (codes "start" ++ 10 ∷ []))
unfolding stack_trace
traces = refl

message_text_example :
    let trace = stack_trace place.thread (codes "main" ∷ []) in
    (sent : Message) × (s : Stream) × (rest : Message) × (flush trace true
        (stream_to (codes "over") (create LogLevel.fatal place))
      ≡ (some sent, rest))
    × (sent.content ≡ some (s, true))
    × (s.text
        ≡ take
            (max_message_len - 2)
            (message_head (head_of LogLevel.fatal place) ++ (codes "over" ++ 10 ∷ trace)))
    × (flush trace true rest ≡ (none, rest))
message_text_example = message_text LogLevel.fatal place (codes "over") (codes "main" ∷ [])
