-- ===== src/Io/Device/Read.antt =====
-- What `Read` of IODevice.h delivers, over the data source that a subclass gives.
use server_dev_lib.Base.{
  ℕ, ◌+◌, ◌-◌, ◌%◌, ◌^◌, ◌≤◌, ◌<◌, ◌≡◌, if◌then◌else◌, refl, ap, ◌∙◌, true, false, some, List, ◌++◌,
  min, arith, ltb, append-nil, take, drop, length, copy_at, take-append, drop-append, ◌==◌,
}
use server_dev_lib.Io.Device.{
  IoDevice, Driver, buf_size, add_size, has_read_mode, fill, fill_room, refill, accept, peek,
  block_of, take_out, read,
}
use server_dev_lib.Io.Device.Ring.{
  IsValid, ring_slice, length-ring_slice, contents, drop-ring_slice,
}
use server_dev_lib.Io.Device.Peek.{peek_lem, peek_full}
use server_dev_lib.Io.Device.Fill.{IsHonest, fill_lem}

-- The device after the step of `_head` by `n`.
taken : IoDevice → ℕ → IoDevice
taken d n = record d { head = add_size d.head n % buf_size; size = d.size - n }

taken_lem :
    (d : IoDevice) (n : ℕ)
    → IsValid d
    → n ≤ d.size
    → IsValid (taken d n) × (contents (taken d n) ≡ drop n (contents d))
unfolding taken
taken_lem d n v h = (
  record {
    block = v.block;
    head_in = omega arith;
    size_in = omega arith;
    tail_at = omega (arith, v.tail_at);
  },
  rw
      (
        drop-ring_slice d.buf d.head n d.size (omega (arith, v.block)) h (omega (arith, v.block)),
        v.block,
      )
      (ap (λ t. ring_slice d.buf t (d.size - n)) at),
)
  where
    at : add_size d.head n % buf_size ≡ (d.head + n) % buf_size
    at = omega arith

module _ {S : Type 0} (driver : Driver S) where
  take_out_lem :
      (d : IoDevice) (block : List ℕ) (size : ℕ)
      → IsValid d
      → has_read_mode d ≡ true
      → driver.is_sequential ≡ false
      → d.size < buf_size
      → take_out driver d block size ≡ (
        min size d.size,
        copy_at block 0 (take (min size d.size) (contents d)),
        taken d (min size d.size),
      )
  unfolding take_out taken block_of
  take_out_lem d block size v readable random room =
      let m : (if ltb size d.size then size else d.size) ≡ min size d.size = ground arith in
      let twice : min (min size d.size) d.size ≡ min size d.size = omega arith in
      rw (m, random, peek_lem d block (min size d.size) v readable room, twice) refl

  take_out_full :
      (d : IoDevice) (block : List ℕ) (size : ℕ)
      → IsValid d
      → has_read_mode d ≡ true
      → driver.is_sequential ≡ false
      → d.size ≡ buf_size
      → take_out driver d block size ≡ (min size d.size, block, taken d (min size d.size))
  unfolding take_out taken block_of
  take_out_full d block size v readable random full =
      let m : (if ltb size d.size then size else d.size) ≡ min size d.size = ground arith in
      rw (m, random, peek_full d block (min size d.size) v readable full) refl

  take_out_sequential :
      (d : IoDevice) (block : List ℕ) (size : ℕ)
      → has_read_mode d ≡ true
      → driver.is_sequential ≡ true
      → take_out driver d block size ≡ (min size d.size, block, taken d (min size d.size))
  unfolding take_out taken block_of peek
  take_out_sequential d block size readable sequential = ground arith

  -- What `Read` does behind its guards.
  read-fill :
      (d : IoDevice) (s : S) (block : List ℕ) (size : ℕ)
      → has_read_mode d ≡ true
      → 0 < size
      → let (d', s') = fill driver d s in
        let (n, block', d'') = take_out driver d' block size in
        read driver d s (some block) size ≡ (n, some block', d'', s')
  unfolding read
  read-fill d s block size readable pos =
      let e : (size == 0) ≡ false = ground arith in rw (readable, e) refl

  has_read_mode-mode : (d e : IoDevice) → e.mode ≡ d.mode → has_read_mode e ≡ has_read_mode d
  unfolding has_read_mode
  has_read_mode-mode d e h = rw h

module _ {S : Type 0} {driver : Driver S} {stream : S → List ℕ}
    (honest : IsHonest driver stream) where
  module _ (d : IoDevice) (s : S) (block : List ℕ) (size : ℕ) (valid : IsValid d)
      (readable : has_read_mode d ≡ true) (random : driver.is_sequential ≡ false)
      (pos : 0 < size) where
    n : ℕ
    n = min size (fill driver d s).0.size

    readable' : has_read_mode (fill driver d s).0 ≡ true
    readable' =
        has_read_mode-mode driver d (fill driver d s).0 (fill_lem honest d s valid).2 ∙ readable

    read_shape :
        (fill driver d s).0.size < buf_size
        → let (d', s') = fill driver d s in
          read driver d s (some block) size
          ≡ (n, some (copy_at block 0 (take n (contents d'))), taken d' n, s')
    unfolding n
    read_shape room =
        let (d', s') = fill driver d s in
        read-fill driver d s block size readable pos
        ∙ ap (λ t. (t.0, some t.1, t.2, s'))
            (take_out_lem driver d' block size (fill_lem honest d s valid).0 readable' random room)

    read_shape_full :
        (fill driver d s).0.size ≡ buf_size
        → let (d', s') = fill driver d s in
          read driver d s (some block) size ≡ (n, some block, taken d' n, s')
    unfolding n
    read_shape_full full =
        let (d', s') = fill driver d s in
        read-fill driver d s block size readable pos
        ∙ ap (λ t. (t.0, some t.1, t.2, s'))
            (take_out_full driver d' block size (fill_lem honest d s valid).0 readable' random full)

    -- What is left behind `n` bytes, and what those were.
    cut_stream :
        let (d', s') = fill driver d s in
        (take n (contents d') ≡ take n (contents d ++ stream s))
        × (contents (taken d' n) ++ stream s' ≡ drop n (contents d ++ stream s))
        × IsValid (taken d' n)
    unfolding n
    cut_stream =
        let (d', s') = fill driver d s in
        let (v, flow, _) = fill_lem honest d s valid in
        let (v', left) = taken_lem d' n v (omega arith) in
        let short : n - length (contents d') ≡ 0 = omega (
          arith,
          length-ring_slice d'.buf d'.head d'.size (omega (arith, v.block))
              (omega (arith, v.block)),
        ) in
        (
          rw (← flow, take-append n (contents d'), short, append-nil) refl,
          rw (← flow, drop-append n (contents d'), short, left) refl,
          v',
        )

    -- `Read` of a positive size on a readable random-access device with a valid buffer, when the refill
    -- from an honest source does not fill the buffer: it returns the smaller of the size asked for and
    -- the bytes buffered, copies exactly the next bytes of the stream, leaves the rest of the stream in
    -- order, and keeps the buffer valid.
    pub read_fifo :
        (fill driver d s).0.size < buf_size
        → let (got, m, d', s') = read driver d s (some block) size in
          (got ≡ min size (fill driver d s).0.size)
          × (m ≡ some (copy_at block 0 (take got (contents d ++ stream s))))
          × (contents d' ++ stream s' ≡ drop got (contents d ++ stream s))
          × IsValid d'
    unfolding n
    read_fifo room =
        let (front, left, v) = cut_stream in
        rw (read_shape room) (refl, ap (λ b. some (copy_at block 0 b)) front, left, v)

    -- `Read` under the same conditions, when the refill does fill the buffer: it returns the smaller of
    -- the size asked for and the 1024 bytes buffered, does not write to the caller's block, and drops
    -- that many bytes of the stream.
    read_full_loses :
        (fill driver d s).0.size ≡ buf_size
        → let (got, m, d', s') = read driver d s (some block) size in
          (got ≡ min size buf_size)
          × (m ≡ some block)
          × (contents d' ++ stream s' ≡ drop got (contents d ++ stream s))
          × IsValid d'
    unfolding n
    read_full_loses full =
        let (front, left, v) = cut_stream in
        rw (read_shape_full full) (ap (min size) full, refl, left, v)

mode-fill :
    {S : Type 0} (driver : Driver S) (d : IoDevice) (s : S) → (fill driver d s).0.mode ≡ d.mode
unfolding fill fill_room accept
mode-fill driver d s = ground arith

-- `Read` of a positive size on a readable sequential device, whatever its source does: it returns the
-- smaller of the size asked for and the bytes buffered after the refill, steps over that many, and
-- does not write to the caller's block.
pub read_sequential :
    {S : Type 0} (driver : Driver S) (d : IoDevice) (s : S) (block : List ℕ) (size : ℕ)
    → has_read_mode d ≡ true
    → driver.is_sequential ≡ true
    → 0 < size
    → let (d', s') = fill driver d s in
      let n = min size d'.size in
      read driver d s (some block) size
      ≡ (n, some block, record d' { head = add_size d'.head n % buf_size; size = d'.size - n }, s')
unfolding taken
read_sequential driver d s block size readable sequential pos =
    let (d', s') = fill driver d s in
    read-fill driver d s block size readable pos
    ∙ ap (λ t. (t.0, some t.1, t.2, s'))
        (take_out_sequential driver d' block size
          (has_read_mode-mode driver d d' (mode-fill driver d s) ∙ readable) sequential)

fill_failure :
    {S : Type 0} (driver : Driver S) (d : IoDevice) (s : S)
    → IsValid d
    → d.size ≡ 0
    → ((n : ℕ) → (driver.read_data s n).ret ≡ 2 ^ 64 - 1)
    → (fill driver d s).0.size ≡ 2 ^ 64 - 1
unfolding fill fill_room accept refill
fill_failure driver d s v none_left fails =
    ground (arith, fails (buf_size - d.tail), v.tail_at, v.head_in)

-- `Read` of a positive size below 2 ^ 63 on a readable device with a valid, empty buffer, when
-- `ReadData` fails with -1: it returns the whole size asked for, and leaves an invalid buffer.
read_failure :
    {S : Type 0} (driver : Driver S) (d : IoDevice) (s : S) (block : List ℕ) (size : ℕ)
    → IsValid d
    → has_read_mode d ≡ true
    → d.size ≡ 0
    → 0 < size
    → size < 2 ^ 63
    → ((n : ℕ) → (driver.read_data s n).ret ≡ 2 ^ 64 - 1)
    → let (got, m, d', s') = read driver d s (some block) size in (got ≡ size) × ¬ IsValid d'
unfolding take_out
read_failure driver d s block size v readable none_left pos small fails =
    let huge = fill_failure driver d s v none_left fails in
    let e : (if ltb size (fill driver d s).0.size then size else (fill driver d s).0.size) ≡ size =
      ground arith in
    rw (read-fill driver d s block size readable pos, e)
      (refl, λ w. absurd (omega (arith, w.size_in, huge)))
