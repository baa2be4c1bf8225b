-- ===== src/Io/Device.antt =====
-- include/server/IODevice.h: a device with a circular receive buffer in front of a data source.
-- A byte is a number; a `std::string` or `char *` block is the list of its bytes.
pub mod Ring
pub mod Peek
pub mod Fill
pub mod Read
mod Tests
use server_dev_lib.Base.{
  ℕ, ◌+◌, ◌-◌, ◌%◌, ◌^◌, Bool, true, false, ◌&&◌, ◌||◌, not, Option, none, some, List, [], ◌∷◌, ltb,
  leb, ◌==◌, if◌then◌else◌, take, drop, length, replicate, copy_at,
}
use server_dev_lib.Base.Bits.{has_bits}

-- `enum Mode`
pub data Mode : Type 0 where
  r w rw none_mode : Mode

abbrev pub mode_bits : Mode → ℕ
mode_bits Mode.r = 1
mode_bits Mode.w = 2
mode_bits Mode.rw = 4
mode_bits Mode.none_mode = 8

-- `BUFSIZE`
abbrev pub buf_size : ℕ
buf_size = 1024

-- `std::size_t` addition
abbrev pub add_size : ℕ → ℕ → ℕ
add_size a b = (a + b) % 2 ^ 64

-- The private fields of `IODevice`.
pub record IoDevice : Type 0 where
  pub mode : Mode
  pub is_open : Bool
  pub head : ℕ
  pub tail : ℕ
  pub size : ℕ
  pub buf : List ℕ

-- `IODevice()`
unfoldable pub init : IoDevice
init = record {
  mode = Mode.none_mode;
  is_open = true;
  head = 0;
  tail = 0;
  size = 0;
  buf = replicate buf_size b' ';
}

unfoldable pub has_read_mode : IoDevice → Bool
has_read_mode d = has_bits (mode_bits d.mode) 4 || has_bits (mode_bits d.mode) 1

unfoldable pub has_write_mode : IoDevice → Bool
has_write_mode d = has_bits (mode_bits d.mode) 4 || has_bits (mode_bits d.mode) 2

unfoldable pub set_open_mode : Mode → IoDevice → IoDevice
set_open_mode m d = record d {
  mode = m;
  is_open = has_bits (mode_bits m) 4 || (has_bits (mode_bits m) 1 || has_bits (mode_bits m) 2);
}

-- `char * data`: `none` is the null pointer, a list the caller's block of memory.
abbrev pub Memory : Type 0
Memory = Option (List ℕ)

-- What `ReadData(p, n)` does: the bytes that it stores at `p`, the value that it returns, converted
-- to `std::size_t` (a failure, -1, is 2 ^ 64 - 1), and the source after the call.
pub record Reply (S : Type 0) : Type 0 where
  pub stored : List ℕ
  pub ret : ℕ
  pub rest : S

-- The virtual functions that a subclass gives, over the state `S` of what lies behind the device.
pub record Driver (S : Type 0) : Type 0 where
  pub is_sequential : Bool
  pub read_data : S → ℕ → Reply S
  pub write_data : S → List ℕ → ℕ × S

-- `std::memcpy(data + off, &_buf.at(pos), n)`
abbrev pub memcpy : List ℕ → ℕ → List ℕ → ℕ → ℕ → List ℕ
memcpy block off buf pos n = copy_at block off (take n (drop pos buf))

-- The body of `Peek(char *, size)` behind its guards: the block after the one or two copies.
unfoldable pub peek_copy : IoDevice → List ℕ → ℕ → List ℕ
peek_copy d block exact =
    let len = if leb d.head d.tail then d.tail - d.head else buf_size - d.head in
    let valid = if ltb exact len then exact else len in
    let first = memcpy block 0 d.buf d.head valid in
    if ltb d.tail d.head && ltb valid exact then memcpy first len d.buf 0 (exact - valid) else first

-- `Peek(char * data, size)`: the returned count, and the caller's block after the call.
unfoldable pub peek : Bool → IoDevice → Memory → ℕ → ℕ × Memory
unfolding peek_copy has_read_mode
peek sequential d none size = (0, none)
peek sequential d (some block) size =
    if not (has_read_mode d) || (d.size == 0 || sequential)
    then (0, some block)
    else (let exact = if ltb size d.size then size else d.size in
        (exact, some (peek_copy d block exact)))

unfoldable pub block_of : List ℕ → Memory → List ℕ
block_of old none = old
block_of old (some block) = block

-- `Peek(size)`, into a vector of spaces.
unfoldable pub peek_vector : Bool → IoDevice → ℕ → List ℕ
unfolding peek block_of
peek_vector sequential d size =
    if d.size == 0 || (not (has_read_mode d) || sequential)
    then []
    else (let valid = if ltb size d.size then size else d.size in
        let fresh = replicate valid b' ' in block_of fresh (peek sequential d (some fresh) valid).1)

-- The fields after the calls of `ReadData` in `Read`: what the two stored, at `_tail` and at 0, and
-- the steps of `_tail` and `_size` by the sum of what they returned.
unfoldable pub accept : IoDevice → List ℕ → List ℕ → ℕ → IoDevice
accept d first second readed = record d {
  tail = add_size d.tail readed % buf_size;
  size = add_size d.size readed;
  buf = copy_at (copy_at d.buf d.tail first) 0 second;
}

module _ {S : Type 0} (driver : Driver S) where
  open driver use {is_sequential, read_data, write_data}

  -- The second `ReadData` of `Read`, made if the first filled the end of the buffer.
  unfoldable pub refill : Bool → S → ℕ → Reply S
  refill wraps s n = if wraps then read_data s n else record { stored = []; ret = 0; rest = s }

  -- The part of `Read` inside `if ( BUFSIZE > _size )`.
  unfoldable pub fill_room : IoDevice → S → IoDevice × S
  unfolding refill accept
  fill_room d s =
      let len = if leb d.head d.tail then buf_size - d.tail else d.head - d.tail in
      let first = read_data s len in
      let second = refill (ltb d.head d.tail && leb len first.ret) first.rest d.head in
      (accept d first.stored second.stored (add_size first.ret second.ret), second.rest)

  unfoldable pub fill : IoDevice → S → IoDevice × S
  fill d s = if ltb d.size buf_size then fill_room d s else (d, s)

  -- The part of `Read` after it: `Peek`, and the step of `_head`.
  unfoldable pub take_out : IoDevice → List ℕ → ℕ → ℕ × List ℕ × IoDevice
  unfolding peek block_of
  take_out d block size =
      let valid = if ltb size d.size then size else d.size in
      (
        valid,
        block_of block (peek is_sequential d (some block) valid).1,
        record d { head = add_size d.head valid % buf_size; size = d.size - valid },
      )

  -- `Read(char * data, size)`: the count, the caller's block, the device and the source.
  unfoldable pub read : IoDevice → S → Memory → ℕ → ℕ × Memory × IoDevice × S
  unfolding has_read_mode
  read d s none size = (0, none, d, s)
  read d s (some block) size =
      if not (has_read_mode d) || size == 0
      then (0, some block, d, s)
      else (let (d', s') = fill d s in
          let (n, block', d'') = take_out d' block size in (n, some block', d'', s'))

  -- `Read(size)`, into a vector of spaces of that size.
  unfoldable pub read_vector : IoDevice → S → ℕ → List ℕ × IoDevice × S
  unfolding block_of has_read_mode
  read_vector d s size =
      if not (has_read_mode d) || size == 0
      then ([], d, s)
      else (let fresh = replicate size b' ' in
          let (n, m, d', s') = read d s (some fresh) size in (block_of fresh m, d', s'))

  -- `ReadAll()`
  unfoldable pub read_all : IoDevice → S → List ℕ × IoDevice × S
  read_all d s = read_vector d s d.size

  -- `Write(char const * data, size)`
  unfoldable pub write : IoDevice → S → Memory → ℕ → ℕ × S
  unfolding has_write_mode
  write d s none size = (0, s)
  write d s (some block) size =
      if not (has_write_mode d) || size == 0 then (0, s) else write_data s (take size block)

-- `AvailabelBytesToRead`, `ReceivedSize` and `Pos`
unfoldable pub available_bytes_to_read : IoDevice → ℕ
available_bytes_to_read d = d.size

unfoldable pub received_size : Bool → IoDevice → ℕ
received_size sequential d = if sequential then 0 else d.size

unfoldable pub pos : Bool → IoDevice → ℕ
pos sequential d = if sequential then 0 else d.head

-- `Seek(pos)`
unfoldable pub seek : Bool → IoDevice → ℕ → Bool × IoDevice
unfolding has_read_mode
seek sequential d p =
    if sequential || (not (has_read_mode d) || leb d.tail (add_size d.head p % buf_size))
    then (false, d)
    else (true, record d { head = add_size d.head p % buf_size })

-- `SkipSome(size)`
unfoldable pub skip_some : IoDevice → ℕ → ℕ × IoDevice
unfolding has_read_mode
skip_some d size =
    if not (has_read_mode d)
    then (0, d)
    else (let valid = if ltb size d.size then size else d.size in
        (valid, record d { head = add_size d.head valid % buf_size }))
