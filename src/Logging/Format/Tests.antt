-- ===== src/Logging/Format/Tests.antt =====
-- Tests of what the logging code prints, and its theorems at inputs that meet their hypotheses.
use server_dev_lib.Base.{◌≡◌, refl, some, arith}
use server_dev_lib.Base.Text.{codes}
use server_dev_lib.Logging.Format.{Time, show, message_time, message_head}
use server_dev_lib.Logging.Format.Stamp.{read_message_time, read_message_time-message_time}

abbrev leap : Time
leap = record { year = 2016; month = 12; day = 31; hour = 23; minute = 59; second = 60 }

abbrev early : Time
early = record { year = 1999; month = 1; day = 2; hour = 3; minute = 4; second = 5 }

shows : show 18446744073709551615 ≡ codes "18446744073709551615"
unfolding show
shows = refl

head_line :
    message_head (record {
      level = codes "INFO ";
      thread = codes "140";
      time = early;
      milliseconds = 7;
      file = codes "Channel.h";
      func = codes "Read";
      line = 74;
    })
    ≡ codes "[ INFO  140 1999-01-02 03:04:05.007            Channel.h:           Read:   74 ] --- "
unfolding message_head message_time
head_line = refl

read_message_time-message_time_example : read_message_time (message_time early 7) ≡ some (early, 7)
read_message_time-message_time_example =
    read_message_time-message_time early 7 (omega arith) (omega arith)
