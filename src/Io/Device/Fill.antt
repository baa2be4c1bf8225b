-- ===== src/Io/Device/Fill.antt =====
-- What `Read` of IODevice.h delivers, over the data source that a subclass gives.
use server_dev_lib.Base.{
  ℕ, ◌+◌, ◌-◌, ◌%◌, ◌≤◌, ◌<◌, ◌≡◌, ◌⊎◌, if◌then◌else◌, refl, ap, ◌∙◌, Bool, true, false, List, [],
  ◌++◌, arith, ltb, leb, append_assoc, length, length-copy_at, copy_at, copy_at-nil, inl, inr,
  Bool-cases,
}
use server_dev_lib.Io.Device.{IoDevice, Driver, accept, buf_size, add_size, refill, fill_room, fill}
use server_dev_lib.Io.Device.Ring.{IsValid, contents, ring_slice-copy_at}

-- What `::read` and `std::fstream::read` promise of a call that does not fail: the returned count is
-- that of the bytes stored, which fit the block, and they are the next ones of the stream.
pub record IsHonest {S : Type 0} (driver : Driver S) (stream : S → List ℕ) : Type 0 where
  pub counts : (s : S) (n : ℕ) → (driver.read_data s n).ret ≡ length (driver.read_data s n).stored
  pub fits : (s : S) (n : ℕ) → length (driver.read_data s n).stored ≤ n
  pub flows :
      (s : S) (n : ℕ)
      → (driver.read_data s n).stored ++ stream (driver.read_data s n).rest ≡ stream s

-- A write of `k` bytes at `_tail` that does not pass the end of the block.
pub store : IoDevice → List ℕ → IoDevice
store d ys = record d {
  tail = (d.tail + length ys) % buf_size;
  size = d.size + length ys;
  buf = copy_at d.buf d.tail ys;
}

store_lem :
    (d : IoDevice) (ys : List ℕ)
    → IsValid d
    → d.size + length ys ≤ buf_size
    → d.tail + length ys ≤ buf_size
    → IsValid (store d ys) × (contents (store d ys) ≡ contents d ++ ys)
unfolding store
store_lem d ys v p q = (
  record {
    block = length-copy_at d.buf d.tail ys ∙ v.block;
    head_in = v.head_in;
    size_in = p;
    tail_at = omega (arith, v.tail_at);
  },
  ring_slice-copy_at d.buf d.head d.size d.tail ys (omega arith) (omega arith)
      (rw v.block v.tail_at) (omega arith),
)

accept-store :
    (d : IoDevice) (first second : List ℕ) (readed : ℕ)
    → d.size ≤ buf_size
    → d.tail < buf_size
    → length first + length second ≤ buf_size
    → readed ≡ length first + length second
    → (second ≡ []) ⊎ (d.tail + length first ≡ buf_size)
    → accept d first second readed ≡ store (store d first) second
unfolding accept store
accept-store d first second readed p q r e (inl f) = rw f at-none
  where
    at-none : accept d first [] readed ≡ store (store d first) []
    at-none = ground (
      arith,
      copy_at-nil (copy_at d.buf d.tail first) 0,
      copy_at-nil (copy_at d.buf d.tail first) ((d.tail + length first) % buf_size),
      ap length f,
    )
accept-store d first second readed p q r e (inr f) = ground (arith, ap (λ (t : ℕ). t % buf_size) f)

module _ {S : Type 0} {driver : Driver S} {stream : S → List ℕ}
    (honest : IsHonest driver stream) where
  refill_lem :
      (wraps : Bool) (s : S) (n : ℕ)
      → let r = refill driver wraps s n in
        (r.ret ≡ length r.stored)
        × (length r.stored ≤ n)
        × (r.stored ++ stream r.rest ≡ stream s)
        × ((r.stored ≡ []) ⊎ (wraps ≡ true))
  unfolding refill
  refill_lem true s n = (honest.counts s n, honest.fits s n, honest.flows s n, inr refl)
  refill_lem false s n = (refl, omega arith, refl, inl refl)

  -- The same steps for any sizes of the two blocks that lie free.
  Fills : IoDevice → S → IoDevice × S → Type 0
  Fills d s (d', s') =
      (first second : List ℕ) × (d' ≡ store (store d first) second)
      × (first ++ (second ++ stream s') ≡ stream s)
      × (d.tail + length first ≤ buf_size)
      × (d.size + length first ≤ buf_size)
      × (d.size + length first + length second ≤ buf_size)
      × ((second ≡ []) ⊎ (d.tail + length first ≡ buf_size))
      × (length second ≤ d.head)

  calls-Fills :
      (d : IoDevice) (s : S) (len : ℕ) (wraps : Bool)
      → IsValid d
      → d.tail < buf_size
      → d.tail + len ≤ buf_size
      → d.size + len ≤ buf_size
      → (wraps ≡ true
          → (len ≤ (driver.read_data s len).ret)
            × (d.tail + len ≡ buf_size)
            × (d.size + len + d.head ≤ buf_size))
      → let first = driver.read_data s len in
        let second = refill driver wraps first.rest d.head in
        Fills d s (accept d first.stored second.stored (add_size first.ret second.ret), second.rest)
  unfolding Fills
  calls-Fills d s len wraps v below p q w =
      let first = driver.read_data s len in
      let fits : length first.stored ≤ len = honest.fits s len in
      let counts : first.ret ≡ length first.stored = honest.counts s len in
      let second = refill driver wraps first.rest d.head in
      let (counts', fits', flows', end) = refill_lem wraps first.rest d.head in
      let room : (d.size + length first.stored + length second.stored ≤ buf_size)
          × ((second.stored ≡ []) ⊎ (d.tail + length first.stored ≡ buf_size)) =
        elim end [
          | inl none_more ↦ (omega (arith, ap length none_more), inl none_more)
          | inr t ↦ (omega (arith, w t), inr (omega (arith, w t)))
        ] in
      (
        first.stored,
        second.stored,
        accept-store d first.stored second.stored _ v.size_in below (omega (arith, room.0))
            (omega (arith, room.0)) room.1,
        ap (◌++◌ first.stored) flows' ∙ honest.flows s len,
        omega arith,
        omega arith,
        room.0,
        room.1,
        fits',
      )

  fill_room-Fills :
      (d : IoDevice) (s : S) → IsValid d → d.size < buf_size → Fills d s (fill_room driver d s)
  unfolding fill_room
  fill_room-Fills d s v room =
      calls-Fills d s (if leb d.head d.tail then buf_size - d.tail else d.head - d.tail) _ v
        (omega (arith, v.tail_at)) (ground arith) (ground arith) λ e. ground arith

  stores_lem :
      (d : IoDevice) (s : S) (d' : IoDevice) (s' : S)
      → IsValid d
      → Fills d s (d', s')
      → IsValid d' × (contents d' ++ stream s' ≡ contents d ++ stream s) × (d'.mode ≡ d.mode)
  unfolding Fills store
  stores_lem d s d' s' v (first, second, e, flow, p, q, r, end, l) =
      let (v1, c1) = store_lem d first v q p in
      let (v2, c2) = store_lem (store d first) second v1 r (fits end) in
      rw e (
        v2,
        rw (c2, c1, append_assoc (contents d ++ first), append_assoc (contents d), flow) refl,
        refl,
      )
    where
      fits :
          (second ≡ []) ⊎ (d.tail + length first ≡ buf_size)
          → (d.tail + length first) % buf_size + length second ≤ buf_size
      fits (inl f) = omega (arith, ap length f)
      fits (inr f) = omega (arith, v.head_in)

  -- Over a source whose `ReadData` never fails, and always stores as many bytes as it returns, which
  -- fit the block and are the next ones of its stream, and on a valid buffer: the refill leaves the
  -- buffer valid and the mode as it was, and what is buffered followed by what the source still has is
  -- the same stream of bytes as before.
  pub fill_lem :
      (d : IoDevice) (s : S)
      → IsValid d
      → let (d', s') = fill driver d s in
        IsValid d' × (contents d' ++ stream s' ≡ contents d ++ stream s) × (d'.mode ≡ d.mode)
  unfolding fill
  fill_lem d s v = elim (Bool-cases (ltb d.size buf_size)) [
    | inl room ↦ rw room (stores_lem d s _ _ v (fill_room-Fills d s v (ground arith)))
    | inr full ↦ rw full (v, refl, refl)
  ]
