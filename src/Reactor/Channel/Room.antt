-- ===== src/Reactor/Channel/Room.antt =====
-- How the block of Channel.h grows in front of a read.
use server_dev_lib.Base.{
  ℕ, ◌+◌, ◌-◌, ◌*◌, ◌/◌, ◌≤◌, ◌<◌, ◌≡◌, refl, List, ◌++◌, arith, ◌==◌, length, take, Bool-cases,
  inl, inr,
}
use server_dev_lib.Reactor.Channel.{Channel, Socket, Reserve, buf_size, make_room}
use server_dev_lib.Reactor.Channel.Shown.{shown, shown-reserve}

-- The block has room for a byte when `::read` is called.
pub record HasRoom (c : Channel) : Type 0 where
  pub room : c.received_count < length c.received
  pub block : buf_size ≤ length c.received

module _ {S : Type 0} (socket : Socket S) (string : Reserve) where
  pub make_room-HasRoom :
      (c : Channel) (got : ℕ)
      → c.received_count + got ≤ length c.received
      → buf_size ≤ length c.received
      → HasRoom (make_room socket string c got (length c.received - c.received_count))
  unfolding make_room
  make_room-HasRoom c got fits block =
      let larger = string.length-reserve c.received (3 * length c.received / 2) in
      elim (Bool-cases ((length c.received - c.received_count) == got)) [
        | inl full ↦
            rw full (record { room = omega (arith, larger); block = omega (arith, larger) })
        | inr free ↦ rw free (record { room = ground arith; block = block })
      ]

  pub make_room-shown :
      (c : Channel) (got : ℕ) (more : List ℕ)
      → buf_size ≤ length c.received
      → let c' = make_room socket string c got (length c.received - c.received_count) in
        shown (take c'.received_count c'.received ++ more)
        ≡ shown (take (c.received_count + got) c.received ++ more)
  unfolding make_room
  make_room-shown c got more block =
      elim (Bool-cases ((length c.received - c.received_count) == got)) [
        | inl full ↦ rw full (
            shown-reserve string c.received (3 * length c.received / 2) (c.received_count + got)
              more block (omega arith))
        | inr free ↦ rw free refl
      ]
