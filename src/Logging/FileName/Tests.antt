-- ===== src/Logging/FileName/Tests.antt =====
-- Tests of the names of log files, and their theorems at inputs that meet their hypotheses.
use server_dev_lib.Base.{◌≡◌, ◌≢◌, refl, arith, some, replicate, copy_at}
use server_dev_lib.Base.Text.{codes}
use server_dev_lib.Logging.Format.{Time, local_time}
use server_dev_lib.Logging.Format.Stamp.{IsTime}
use server_dev_lib.Logging.Stream.{put, open_stream, put_char}
use server_dev_lib.Logging.FileName.{
  Origin, full_name, name_front, name_back, c_string, file_name, max_filename_size, names_differ,
}

abbrev noon : Time
noon = record { year = 2024; month = 5; day = 31; hour = 12; minute = 0; second = 0 }

abbrev later : Time
later = record { year = 2024; month = 5; day = 31; hour = 12; minute = 0; second = 1 }

abbrev short_origin : Origin
short_origin = record {
  logs_dir = codes "/tmp/";
  program = codes "srv";
  host = codes "box";
  pid = 42;
}

abbrev long_origin : Origin
long_origin = record {
  logs_dir = codes "/var/lib/service/logs/of/this/machine/";
  program = codes "connection_server";
  host = codes "box";
  pid = 42;
}

short_name : full_name short_origin noon ≡ codes "/tmp/srv_box_20240531-120000_42.log"
unfolding full_name name_front name_back local_time
short_name = refl

opened_name :
    file_name (replicate max_filename_size 0) short_origin noon
    ≡ some (codes "/tmp/srv_box_20240531-120000_42.log")
unfolding file_name full_name name_front name_back local_time put open_stream put_char c_string
    copy_at
opened_name = refl

noon-IsTime : IsTime noon
noon-IsTime = omega arith

later-IsTime : IsTime later
later-IsTime = omega arith

names_differ_example :
    file_name (replicate max_filename_size 0) short_origin noon
    ≢ file_name (replicate max_filename_size 0) short_origin later
unfolding full_name name_front name_back local_time
names_differ_example =
    names_differ short_origin noon later noon-IsTime later-IsTime (omega arith) (omega arith)
      (omega arith) (λ e. cc)
