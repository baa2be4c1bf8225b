-- ===== src/Io/File/Tests.antt =====
-- Tests of File.h, and its theorems at inputs that meet their hypotheses.
use server_dev_lib.Base.{◌≡◌, refl, true, false, some, arith, copy_at}
use server_dev_lib.Base.Text.{codes}
use server_dev_lib.Io.File.{
  File, open_file, write, read, read_all, read_block, read_stream, size, stream_read,
}
use server_dev_lib.Io.File.Access.{write-read}

abbrev five : File
unfolding open_file
five = open_file (some (codes "hello"))

-- The same file after it has been read.
abbrev at_end : File
at_end = record five { stream = record five.stream { position = 5 } }

reads_all : read_all five ≡ some (codes "hello", at_end)
unfolding open_file read_all read read_block read_stream size stream_read copy_at
reads_all = refl

write-read_example :
    let (n, f1) = write true (codes "abc") 1 five in
    (n ≡ 3)
    × (f2 : File) × (read 1 3 f1 ≡ some (codes "abc", f2))
    × (f2.stream.failed ≡ false)
    × (f2.stream.bytes ≡ f1.stream.bytes)
unfolding open_file
write-read_example = write-read (codes "abc") 1 five refl refl (omega arith)
