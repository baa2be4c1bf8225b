-- ===== src/Io/File.antt =====
-- include/server/File.h: a file over `std::fstream`. A `std::basic_filebuf` has one position, for reading
-- and for writing, and the calls that move it write out what it holds; so the file on disk is one list
-- of bytes.
pub mod Access
pub mod Stuck
mod Tests
use server_dev_lib.Base.{
  ℕ, ◌+◌, ◌-◌, Bool, true, false, ◌&&◌, ◌||◌, not, Option, none, some, List, [], ◌∷◌, ◌++◌, ltb,
  leb, ◌==◌, if◌then◌else◌, length, take, drop, replicate, copy_at,
}
use server_dev_lib.Io.Device.{Mode, IoDevice, set_open_mode, init, Driver}

-- `std::fstream`: `failed` is `fail()`.
pub record FileStream : Type 0 where
  pub bytes : List ℕ
  pub position : ℕ
  pub failed : Bool

-- `seekp(offset, std::ios::beg)` and `seekg(offset, std::ios::beg)`: nothing on a failed stream.
unfoldable pub seek_to : ℕ → FileStream → FileStream
seek_to offset f = if f.failed then f else record f { position = offset }

-- `seekp(0, std::ios::end)`
unfoldable pub seek_end : FileStream → FileStream
seek_end f = if f.failed then f else record f { position = length f.bytes }

-- The bytes of a file after a write at a position; a write behind the end fills the gap with zeros.
unfoldable pub overwrite : List ℕ → ℕ → List ℕ → List ℕ
overwrite bytes position text =
    (take position bytes ++ replicate (position - length bytes) 0)
    ++ (text ++ drop (position + length text) bytes)

-- `write(text, n)`, where `wrote` says whether the system takes the bytes.
unfoldable pub stream_write : Bool → List ℕ → FileStream → FileStream
unfolding overwrite
stream_write wrote text f =
    if f.failed
    then f
    else (if wrote
        then record f {
          bytes = overwrite f.bytes f.position text;
          position = f.position + length text;
        }
        else record f { failed = true })

-- `read(buf, n)`: what is stored, and the stream; fewer than `n` bytes are a failure.
unfoldable pub stream_read : ℕ → FileStream → List ℕ × FileStream
stream_read n f =
    let got = take n (drop f.position f.bytes) in
    if f.failed
    then ([], f)
    else (got, record f { position = f.position + length got; failed = ltb (length got) n })

-- The members; `tellp()` and `tellg()` are the position, since the code asks for it only on a stream that
-- has not failed, or does not use the answer.
pub record File : Type 0 where
  pub device : IoDevice
  pub stream : FileStream
  pub access : Bool
  pub writing : Bool

-- `File(filename)`: `found` has the bytes of the file, if it can be opened.
unfoldable pub open_file : Option (List ℕ) → File
open_file none = record {
  device = init;
  stream = record { bytes = []; position = 0; failed = true };
  access = false;
  writing = false;
}
open_file (some bytes) = record {
  device = set_open_mode Mode.rw init;
  stream = record { bytes = bytes; position = 0; failed = false };
  access = true;
  writing = false;
}

-- `size()`
unfoldable pub size : File → ℕ
size f = if f.access then length f.stream.bytes else 0

abbrev seek_if : Bool → (FileStream → FileStream) → FileStream → FileStream
seek_if true move s = move s
seek_if false move s = s

-- `write(buf, offset, size)` behind its test, where `text` is the block of `size` bytes.
unfoldable pub write_stream : Bool → List ℕ → ℕ → File → ℕ × File
unfolding seek_to seek_end stream_write
write_stream wrote text offset f =
    let start = seek_if (ltb 0 offset) (seek_to offset) f.stream in
    let written = stream_write wrote text start in
    let back = seek_to start.position written in
    if written.failed then (0, record f { stream = written; writing = true }) else (
      written.position - start.position,
      record f { stream = seek_if (ltb 0 offset) seek_end back; writing = false },
    )

unfoldable pub write : Bool → List ℕ → ℕ → File → ℕ × File
unfolding write_stream
write wrote text offset f =
    if not f.access || length text == 0 then (0, f) else write_stream wrote text offset f

-- The end of `read(buf, offset, size)`: the count, the block, and the file.
unfoldable pub after_read : List ℕ → FileStream → List ℕ × FileStream → File → ℕ × List ℕ × File
after_read block start (got, s) f = (
  if s.failed then 0 else s.position - start.position,
  copy_at block 0 got,
  record f { stream = s },
)

unfoldable pub read_stream : List ℕ → ℕ → ℕ → File → ℕ × List ℕ × File
unfolding after_read
read_stream block offset n f =
    let start = seek_if (ltb 0 offset) (seek_to offset) f.stream in
    after_read block start (stream_read (if ltb n (size f) then n else size f) start) f

-- `read(buf, offset, size)`, into a block. `none` is the wait for `_writing`, when nobody is there to
-- clear it.
unfoldable pub read_block : List ℕ → ℕ → ℕ → File → Option (ℕ × List ℕ × File)
unfolding read_stream
read_block block offset n f =
    if not f.access || (n == 0 || ltb (size f) offset)
    then some (0, block, f)
    else (if f.writing then none else some (read_stream block offset n f))

-- `read(offset, size)`, into a vector of spaces, which keeps its size.
unfoldable pub read : ℕ → ℕ → File → Option (List ℕ × File)
unfolding read_block
read offset n f =
    if f.access
    then (elim (read_block (replicate n b' ') offset n f) [
      | none ↦ none
      | some (got, block, f') ↦ some (block, f')
    ])
    else some ([], f)

-- `readAll()`
unfoldable pub read_all : File → Option (List ℕ × File)
unfolding size
read_all f = read 0 (size f) f

-- `Close()`: every later operation of a closed stream fails, and the code asks for `fail()` only behind
-- one; the bytes stay on disk, and `_access` stays set.
unfoldable pub close : File → File
close f = if f.access then record f { stream = record f.stream { failed = true } } else f

-- `disableWrite`, `disableRead`, `disableAll` and `Open(mode)`
unfoldable pub change_mode : Mode → File → Bool × File
change_mode m f =
    if f.access then (true, record f { device = set_open_mode m f.device }) else (false, f)

unfoldable pub disable_write : File → File
disable_write f = (change_mode Mode.r f).1

unfoldable pub disable_read : File → File
disable_read f = (change_mode Mode.w f).1

unfoldable pub disable_all : File → File
disable_all f = (change_mode Mode.none_mode f).1
