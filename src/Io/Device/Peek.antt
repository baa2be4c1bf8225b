-- ===== src/Io/Device/Peek.antt =====
-- What `Peek` of IODevice.h copies.
use native.Mathlib.Decide.{dec_le}
use server_dev_lib.Base.{
  ℕ, ◌+◌, ◌-◌, ◌≤◌, ◌<◌, ◌≡◌, true, false, some, List, ◌++◌, min, arith, take, drop, length,
  take_all, length-drop, copy_at, copy_at-nil, copy_at-append,
}
use server_dev_lib.Io.Device.{IoDevice, buf_size, has_read_mode, peek_copy, peek}
use server_dev_lib.Io.Device.Ring.{
  IsValid, ring_slice_near, ring_slice_far, contents, take-ring_slice,
}

second_copy :
    (buf block : List ℕ) (h n : ℕ)
    → length buf ≡ buf_size
    → h ≤ buf_size
    → buf_size ≤ h + n
    → copy_at (copy_at block 0 (drop h buf)) (buf_size - h) (take (n - (buf_size - h)) buf)
      ≡ copy_at block 0 (drop h buf ++ take (h + n - length buf) buf)
second_copy buf block h n e p q =
    let at : 0 + length (drop h buf) ≡ buf_size - h = omega (arith, length-drop h buf) in
    let cut : n - (buf_size - h) ≡ h + n - length buf = omega arith in
    rw (cut, ← at) (copy_at-append block 0 (drop h buf) (take (h + n - length buf) buf))

-- On a buffer that is not full the copies are the oldest `exact` bytes.
pub peek_copy_lem :
    (d : IoDevice) (block : List ℕ) (exact : ℕ)
    → IsValid d
    → d.size < buf_size
    → exact ≤ d.size
    → peek_copy d block exact ≡ copy_at block 0 (take exact (contents d))
unfolding peek_copy
peek_copy_lem d block exact v room h =
    rw (take-ring_slice d.buf d.head exact d.size (omega arith) h)
      (elim (dec_le (d.head + exact) buf_size) [
        | yes near ↦ ground (arith, ring_slice_near d.buf d.head exact)
        | no far ↦ ground (
          arith,
          ring_slice_far d.buf d.head exact,
          take_all (buf_size - d.head) (drop d.head d.buf),
          length-drop d.head d.buf,
          second_copy d.buf block d.head exact v.block (omega arith) (omega arith),
        )
      ])

-- A full buffer is taken for an empty one: nothing is copied.
pub peek_copy_full :
    (d : IoDevice) (block : List ℕ) (exact : ℕ)
    → IsValid d
    → d.size ≡ buf_size
    → peek_copy d block exact ≡ block
unfolding peek_copy
peek_copy_full d block exact v full = ground (arith, copy_at-nil block 0)

-- `Peek` on a random-access device with a valid buffer that is readable and not full: it returns the
-- smaller of the two sizes and copies exactly that many of the oldest bytes, in order.
pub peek_lem :
    (d : IoDevice) (block : List ℕ) (size : ℕ)
    → IsValid d
    → has_read_mode d ≡ true
    → d.size < buf_size
    → peek false d (some block) size
      ≡ (min size d.size, some (copy_at block 0 (take (min size d.size) (contents d))))
unfolding peek
peek_lem d block size v readable room =
    ground (arith, peek_copy_lem d block (min size d.size), copy_at-nil block 0)

-- `Peek` on a full buffer returns the smaller of the two sizes, and leaves the caller's block as it was.
pub peek_full :
    (d : IoDevice) (block : List ℕ) (size : ℕ)
    → IsValid d
    → has_read_mode d ≡ true
    → d.size ≡ buf_size
    → peek false d (some block) size ≡ (min size d.size, some block)
unfolding peek
peek_full d block size v readable full = ground (arith, peek_copy_full d block (min size d.size))
