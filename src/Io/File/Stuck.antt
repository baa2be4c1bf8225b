-- ===== src/Io/File/Stuck.antt =====
-- Calls of File.h that fail, and what they do to the calls after them.
use server_dev_lib.Base.{
  ℕ, ◌+◌, ◌≤◌, ◌<◌, ◌≡◌, refl, sym, ap, subst, if◌then◌else◌, ◌∙◌, Bool, true, false, Option, none,
  some, List, [], ltb, length, take, drop, replicate, copy_at-nil, take-nil, take_all, drop_all,
  arith,
}
use server_dev_lib.Io.File.{
  close, File, FileStream, write, read, read_block, read_stream, after_read, stream_read, read_all,
  size,
}
use server_dev_lib.Io.File.Access.{read_lem, read-stream, valid_size}

size_lem : (f : File) → f.access ≡ true → size f ≡ length f.stream.bytes
unfolding size
size_lem f open_ok = rw open_ok refl

-- `readAll` from the start of a file that is not empty, on a stream that has not failed: the whole
-- file, and the position behind its end.
read_all_lem :
    (f : File)
    → f.access ≡ true
    → f.stream.failed ≡ false
    → f.writing ≡ false
    → f.stream.position ≡ 0
    → 0 < length f.stream.bytes
    → let n = length f.stream.bytes in
      read_all f
      ≡ some
          (f.stream.bytes, record f { stream = record f.stream { position = n; failed = false } })
unfolding read_all size
read_all_lem f open_ok good idle at_start some_bytes =
    let n = length f.stream.bytes in
    let from_zero : 0 + n ≡ n = omega arith in
    let whole : take n (drop 0 f.stream.bytes) ≡ f.stream.bytes =
      take_all n f.stream.bytes (omega arith) in
    ap (λ m. read 0 m f) (size_lem f open_ok)
    ∙ read_lem n 0 f open_ok good idle some_bytes (omega arith) (omega (arith, at_start))
    ∙ ap
        (λ p. some (
          take n (drop p f.stream.bytes),
          record f { stream = record f.stream { position = p + n; failed = false } },
        ))
        at_start
    ∙ rw (whole, from_zero) refl

read-waits :
    (at n : ℕ) (f : File)
    → f.access ≡ true
    → f.writing ≡ true
    → 0 < n
    → at ≤ length f.stream.bytes
    → read at n f ≡ none
unfolding read read_block size
read-waits at n f open_ok waiting some_bytes inside = ground arith

write-failed :
    (wrote : Bool) (text : List ℕ) (offset : ℕ) (f : File)
    → f.access ≡ true
    → 0 < length text
    → (write wrote text offset f).0 ≡ 0
    → ((write wrote text offset f).1.writing ≡ true) × ((write wrote text offset f).1.access ≡ true)
unfolding write
write-failed wrote text offset f open_ok some_text failed = ground arith

-- A write on a stream that has failed.
write-dead :
    (wrote : Bool) (text : List ℕ) (offset : ℕ) (f : File)
    → f.stream.failed ≡ true
    → ((write wrote text offset f).0 ≡ 0)
      × ((write wrote text offset f).1.stream.bytes ≡ f.stream.bytes)
unfolding write
write-dead wrote text offset f dead = ground arith

-- A `write` of at least one byte that returns 0 on an open file leaves `_writing` set: every later read
-- of at least one byte within the file waits, with nobody to wake it.
failed_write_blocks :
    (wrote : Bool) (text : List ℕ) (offset at n : ℕ) (f : File)
    → f.access ≡ true
    → 0 < length text
    → (write wrote text offset f).0 ≡ 0
    → 0 < n
    → at ≤ length (write wrote text offset f).1.stream.bytes
    → read at n (write wrote text offset f).1 ≡ none
failed_write_blocks wrote text offset at n f open_ok some_text failed some_bytes inside =
    let (waiting, still) = write-failed wrote text offset f open_ok some_text failed in
    read-waits at n (write wrote text offset f).1 still waiting some_bytes inside

-- After `Close`, a write of at least one byte writes nothing and returns 0, and then every read of at
-- least one byte within the file waits, with nobody to wake it.
close_blocks :
    (wrote : Bool) (text : List ℕ) (offset at n : ℕ) (f : File)
    → f.access ≡ true
    → 0 < length text
    → 0 < n
    → at ≤ length f.stream.bytes
    → ((write wrote text offset (close f)).0 ≡ 0)
      × ((write wrote text offset (close f)).1.stream.bytes ≡ f.stream.bytes)
      × (read at n (write wrote text offset (close f)).1 ≡ none)
unfolding close
close_blocks wrote text offset at n f open_ok some_text some_bytes inside =
    let closed : File = record f { stream = record f.stream { failed = true } } in
    let shut : close f ≡ closed = ap (λ b. if b then closed else f) open_ok in
    let (nothing, kept) = write-dead wrote text offset closed refl in
    subst
      (λ (g : File).
        ((write wrote text offset g).0 ≡ 0)
        × ((write wrote text offset g).1.stream.bytes ≡ f.stream.bytes)
        × (read at n (write wrote text offset g).1 ≡ none))
      (sym shut)
      (
        nothing,
        kept,
        failed_write_blocks wrote text offset at n closed open_ok some_text nothing some_bytes
            (subst (λ b. at ≤ length b) (sym kept) inside),
      )

abbrev finished : ℕ × List ℕ × File → Option (List ℕ × File)
finished (got, block', f) = some (block', f)

-- A read of the stream behind the last byte.
stream_read-end :
    (n position : ℕ) (bytes : List ℕ)
    → drop position bytes ≡ []
    → 0 < n
    → stream_read n (record { bytes = bytes; position = position; failed = false })
      ≡ ([], record { bytes = bytes; position = position + 0; failed = true })
unfolding stream_read
stream_read-end n position bytes empty more =
    let short : ltb 0 n ≡ true = ground arith in rw (empty, take-nil {A = ℕ} n, short) refl

read-at_end :
    (f : File)
    → f.access ≡ true
    → f.stream.failed ≡ false
    → f.writing ≡ false
    → f.stream.position ≡ length f.stream.bytes
    → 0 < length f.stream.bytes
    → let n = length f.stream.bytes in
      read 0 n f
      ≡ some (
        replicate n b' ',
        record f { stream = record f.stream { position = f.stream.position + 0; failed = true } },
      )
unfolding read_stream after_read
read-at_end f open_ok good idle at_end some_bytes =
    let n = length f.stream.bytes in
    let empty : drop f.stream.position f.stream.bytes ≡ [] =
      drop_all f.stream.position f.stream.bytes (omega (arith, at_end)) in
    let s : FileStream = record f.stream { failed = false } in
    let spaces : List ℕ = replicate n b' ' in
    let fine : f.stream ≡ s = ap (λ b. record f.stream { failed = b }) good in
    read-stream 0 n f open_ok idle some_bytes (omega arith)
    ∙ ap (λ m. finished (after_read spaces f.stream (stream_read m f.stream) f))
        (valid_size n f open_ok (omega arith))
    ∙ ap (λ start. finished (after_read spaces start (stream_read n start) f)) fine
    ∙ ap (λ r. finished (after_read spaces s r f))
        (stream_read-end n f.stream.position f.stream.bytes empty some_bytes)
    ∙ rw (copy_at-nil spaces 0) refl

-- `readAll` at the end of a file that is not empty, on a stream that has not failed, gives spaces alone;
-- then no write of at least one byte writes anything, and after such a write every read of at least one
-- byte within the file waits, with nobody to wake it.
read_all_again :
    (text : List ℕ) (wrote : Bool) (offset at n : ℕ) (f : File)
    → f.access ≡ true
    → f.stream.failed ≡ false
    → f.writing ≡ false
    → f.stream.position ≡ length f.stream.bytes
    → 0 < length f.stream.bytes
    → 0 < length text
    → 0 < n
    → at ≤ length f.stream.bytes
    → (f1 : File) × (read_all f ≡ some (replicate (length f.stream.bytes) b' ', f1))
      × ((write wrote text offset f1).0 ≡ 0)
      × ((write wrote text offset f1).1.stream.bytes ≡ f.stream.bytes)
      × (read at n (write wrote text offset f1).1 ≡ none)
unfolding read_all
read_all_again text wrote offset at n f open_ok good idle at_end some_bytes some_text more inside =
    let f1 : File = record f {
      stream = record f.stream { position = f.stream.position + 0; failed = true };
    } in
    let (nothing, same) = write-dead wrote text offset f1 refl in
    (
      f1,
      ap (λ m. read 0 m f) (size_lem f open_ok) ∙ read-at_end f open_ok good idle at_end some_bytes,
      nothing,
      same,
      failed_write_blocks wrote text offset at n f1 open_ok some_text nothing more (rw same inside),
    )
