-- ===== src/Io/File/Access.antt =====
-- Reads and writes of File.h that succeed.
use server_dev_lib.Base.{
  ℕ, ◌+◌, ◌-◌, ◌≤◌, ◌<◌, ◌≡◌, refl, sym, ap, ◌∙◌, true, false, some, List, ◌++◌, ltb, if◌then◌else◌,
  length, take, drop, replicate, copy_at, length-append, length-take, length-drop, length-replicate,
  take-front, drop-front, copy_at_whole, arith, append_assoc, append-nil, subst,
}
use server_dev_lib.Io.File.{
  File, FileStream, write, read, read_block, read_stream, size, overwrite, seek_to, stream_read,
  after_read, seek_if,
}

-- The part of `overwrite` in front of the text ends at its position.
length-overwrite_front :
    (bytes : List ℕ) (position : ℕ)
    → length (take position bytes ++ replicate (position - length bytes) 0) ≡ position
length-overwrite_front bytes position = omega (
  arith,
  length-append (take position bytes) (replicate (position - length bytes) 0),
  length-take position bytes,
  length-replicate {A = ℕ} (position - length bytes) 0,
)

-- The text stands where it was written.
pub overwrite-reads :
    (bytes : List ℕ) (position : ℕ) (text : List ℕ)
    → take (length text) (drop position (overwrite bytes position text)) ≡ text
unfolding overwrite
overwrite-reads bytes position text =
    let front = take position bytes ++ replicate (position - length bytes) 0 in
    let back = text ++ drop (position + length text) bytes in
    ap (λ n. take (length text) (drop n (front ++ back)))
      (sym (length-overwrite_front bytes position))
    ∙ ap (take (length text)) (drop-front front back)
    ∙ take-front text (drop (position + length text) bytes)

pub length-overwrite :
    (bytes : List ℕ) (position : ℕ) (text : List ℕ)
    → position + length text ≤ length (overwrite bytes position text)
unfolding overwrite
length-overwrite bytes position text =
    let front = take position bytes ++ replicate (position - length bytes) 0 in
    omega (
      arith,
      length-overwrite_front bytes position,
      length-append front (text ++ drop (position + length text) bytes),
      length-append text (drop (position + length text) bytes),
    )

-- A second text of the same length leaves nothing of the first.
overwrite-overwrite :
    (bytes : List ℕ) (position : ℕ) (first second : List ℕ)
    → length first ≡ length second
    → overwrite (overwrite bytes position first) position second ≡ overwrite bytes position second
unfolding overwrite
overwrite-overwrite bytes position first second same =
    let front = take position bytes ++ replicate (position - length bytes) 0 in
    let behind = drop (position + length first) bytes in
    let middle = first ++ behind in
    let ends : length front ≡ position = length-overwrite_front bytes position in
    let kept : take position (front ++ middle) ≡ front =
      ap (λ n. take n (front ++ middle)) (sym ends) ∙ take-front front middle in
    let no_gap : position - length (front ++ middle) ≡ 0 =
      omega (arith, ends, length-append front middle) in
    let end : length (front ++ first) ≡ position + length second =
      omega (arith, ends, same, length-append front first) in
    let rest : drop (position + length second) (front ++ middle) ≡ behind =
      ap (λ n. drop n (front ++ middle)) (sym end)
      ∙ ap (drop (length (front ++ first))) (sym (append_assoc front first behind))
      ∙ drop-front (front ++ first) behind in
    rw (kept, no_gap, rest, append-nil front, same) refl

-- Where a write or a read at an offset starts.
abbrev pub start_at : ℕ → File → ℕ
start_at offset f = if ltb 0 offset then offset else f.stream.position

-- The file after a write that succeeds.
pub written : List ℕ → ℕ → File → File
written text offset f =
    let bytes = overwrite f.stream.bytes (start_at offset f) text in
    record f {
      stream = record {
        bytes = bytes;
        position = if ltb 0 offset then length bytes else f.stream.position;
        failed = false;
      };
      writing = false;
    }

pub write_lem :
    (text : List ℕ) (offset : ℕ) (f : File)
    → f.access ≡ true
    → f.stream.failed ≡ false
    → 0 < length text
    → write true text offset f ≡ (length text, written text offset f)
unfolding write written
write_lem text offset f open_ok good some_text = ground arith

pub valid_size :
    (n : ℕ) (f : File)
    → f.access ≡ true
    → n ≤ length f.stream.bytes
    → (if ltb n (size f) then n else size f) ≡ n
unfolding size
valid_size n f open_ok h = ground arith

pub read-stream :
    (offset n : ℕ) (f : File)
    → f.access ≡ true
    → f.writing ≡ false
    → 0 < n
    → offset ≤ length f.stream.bytes
    → read offset n f
      ≡ (let (got, block, f') = read_stream (replicate n b' ') offset n f in some (block, f'))
unfolding read read_block size
read-stream offset n f open_ok idle some_bytes inside = ground arith

start-seek :
    (offset : ℕ) (f : File)
    → f.stream.failed ≡ false
    → seek_if (ltb 0 offset) (seek_to offset) f.stream
      ≡ record { bytes = f.stream.bytes; position = start_at offset f; failed = false }
unfolding seek_to
start-seek offset f good = ground arith

stream_read_lem :
    (n position : ℕ) (bytes : List ℕ)
    → length (take n (drop position bytes)) ≡ n
    → stream_read n (record { bytes = bytes; position = position; failed = false }) ≡ (
      take n (drop position bytes),
      record { bytes = bytes; position = position + n; failed = false },
    )
unfolding stream_read
stream_read_lem n position bytes full =
    let enough : ltb n n ≡ false = ground arith in rw (full, enough) refl

read_stream_lem :
    (block : List ℕ) (offset n : ℕ) (f : File)
    → f.stream.failed ≡ false
    → (if ltb n (size f) then n else size f) ≡ n
    → length (take n (drop (start_at offset f) f.stream.bytes)) ≡ n
    → read_stream block offset n f ≡ (
      (start_at offset f + n) - start_at offset f,
      copy_at block 0 (take n (drop (start_at offset f) f.stream.bytes)),
      record f { stream = record f.stream { position = start_at offset f + n; failed = false } },
    )
unfolding read_stream after_read
read_stream_lem block offset n f good whole full =
    let at = start_at offset f in
    let fresh : FileStream = record { bytes = f.stream.bytes; position = at; failed = false } in
    ap
      (λ start. after_read block start (stream_read (if ltb n (size f) then n else size f) start) f)
      (start-seek offset f good)
    ∙ ap (λ m. after_read block fresh (stream_read m fresh) f) whole
    ∙ ap (λ r. after_read block fresh r f) (stream_read_lem n at f.stream.bytes full)

-- A read within the file that succeeds, into a block of its own size.
pub read_lem :
    (n offset : ℕ) (f : File)
    → f.access ≡ true
    → f.stream.failed ≡ false
    → f.writing ≡ false
    → 0 < n
    → offset ≤ length f.stream.bytes
    → start_at offset f + n ≤ length f.stream.bytes
    → read offset n f
      ≡ some (
        take n (drop (start_at offset f) f.stream.bytes),
        record f { stream = record f.stream { position = start_at offset f + n; failed = false } },
      )
unfolding read
read_lem n offset f open_ok good idle some_bytes inside within =
    let at = start_at offset f in
    let got = take n (drop at f.stream.bytes) in
    let full : length got ≡ n =
      omega (arith, length-take n (drop at f.stream.bytes), length-drop at f.stream.bytes) in
    let stored : copy_at (replicate n b' ') 0 got ≡ got =
      copy_at_whole (replicate n b' ') got (full ∙ sym (length-replicate n b' ')) in
    let whole : (if ltb n (size f) then n else size f) ≡ n = valid_size n f open_ok (omega arith) in
    let read_ok = read_stream_lem (replicate n b' ') offset n f good whole full in
    read-stream offset n f open_ok idle some_bytes inside
    ∙ ap (λ r. some (r.1, r.2)) read_ok
    ∙ rw stored refl

-- A text written on a stream that has not failed, at an offset or (for 0) at the position, is what a read
-- of its length at the same offset gives back; the write returns its length, and the read changes no
-- byte of the file.
pub write-read :
    (text : List ℕ) (offset : ℕ) (f : File)
    → f.access ≡ true
    → f.stream.failed ≡ false
    → 0 < length text
    → let (n, f1) = write true text offset f in
      (n ≡ length text)
      × (f2 : File) × (read offset (length text) f1 ≡ some (text, f2))
      × (f2.stream.failed ≡ false)
      × (f2.stream.bytes ≡ f1.stream.bytes)
unfolding written
write-read text offset f open_ok good some_text =
    let g = written text offset f in
    let n = length text in
    let at = start_at offset f in
    let here : start_at offset g ≡ at = ground arith in
    let long : at + n ≤ length g.stream.bytes = length-overwrite f.stream.bytes at text in
    let inside : offset ≤ length g.stream.bytes = ground arith in
    let within : start_at offset g + n ≤ length g.stream.bytes = rw here long in
    let f2 : File = record g {
      stream = record g.stream { position = start_at offset g + n; failed = false };
    } in
    let result : read offset n g ≡ some (text, f2) =
      read_lem n offset g open_ok refl refl some_text inside within
      ∙ ap (λ t. some (t, f2))
          (ap (λ k. take n (drop k g.stream.bytes)) here
            ∙ overwrite-reads f.stream.bytes at text) in
    let wrote = write_lem text offset f open_ok good some_text in
    subst
      (λ (r : ℕ × File).
        (r.0 ≡ n)
        × (f3 : File) × (read offset n r.1 ≡ some (text, f3))
        × (f3.stream.failed ≡ false)
        × (f3.stream.bytes ≡ r.1.stream.bytes))
      (sym wrote) (refl, f2, result, refl, refl)

-- Two texts of one length, written one after the other with no offset on a stream that has not failed:
-- the second stands in the place of the first, as if that had not been written.
second_write_replaces :
    (first second : List ℕ) (f : File)
    → f.access ≡ true
    → f.stream.failed ≡ false
    → 0 < length first
    → length first ≡ length second
    → let f1 = (write true first 0 f).1 in
      (write true second 0 f1).1.stream ≡ (write true second 0 f).1.stream
unfolding written
second_write_replaces first second f open_ok good some_text same =
    let g = written first 0 f in
    let some_second : 0 < length second = omega (arith, same) in
    let one : (write true first 0 f).1 ≡ g =
      ap (λ r. r.1) (write_lem first 0 f open_ok good some_text) in
    ap (λ h. (write true second 0 h).1.stream) one
    ∙ ap (λ r. r.1.stream) (write_lem second 0 g open_ok refl some_second)
    ∙ ap (λ b. record { bytes = b; position = f.stream.position; failed = false })
        (overwrite-overwrite f.stream.bytes f.stream.position first second same)
    ∙ sym (ap (λ r. r.1.stream) (write_lem second 0 f open_ok good some_second))
