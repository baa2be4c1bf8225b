-- ===== src/Reactor/Channel.antt =====
-- include/server/reactor/Channel.h: one connection, with a buffer for what was received and one for
-- what is to be sent.
pub mod Honest
pub mod Inactive
pub mod Loop
pub mod Receive
pub mod Send
pub mod Shown
pub mod Ending
pub mod Samples
pub mod Room
pub mod Total
mod Tests
use server_dev_lib.Base.{
  ℕ, zero, suc, ◌+◌, ◌-◌, ◌*◌, ◌/◌, ◌≤◌, ◌≡◌, Bool, true, false, not, Option, none, some, List, [],
  ◌∷◌, ◌++◌, ltb, ◌==◌, if◌then◌else◌, length, take, drop, copy_at, replicate,
}
use server_dev_lib.Base.Int.{ℤ, is_positive}

-- `BUFSIZE`
abbrev pub buf_size : ℕ
buf_size = 128

-- What `::read` returns: bytes, the end of the stream (0) or an error (-1). What `::write` returns:
-- how many bytes it took, or an error.
pub data Got : Type 0 where
  bytes : List ℕ → Got
  eof failed : Got

pub record Socket (S : Type 0) : Type 0 where
  pub read : S → ℕ → Got × S
  pub write : S → List ℕ → Option ℕ × S

-- `std::string::reserve` on a string of `buf_size` characters, over its block of memory: the new block
-- has room for the requested size, and the string's own characters are kept.
pub record Reserve : Type 0 where
  pub reserve : List ℕ → ℕ → List ℕ
  pub length-reserve : (m : List ℕ) (n : ℕ) → n ≤ length (reserve m n)
  pub reserve_keeps :
      (m : List ℕ) (n : ℕ) → buf_size ≤ length m → take buf_size (reserve m n) ≡ take buf_size m

-- `received` is the block of `_receivedBuf`, as long as its capacity; `has_demultiplexer` says whether
-- `_demultiplexer` is set. `received_count` stands for an `int`, whose overflow is undefined: the model
-- is of channels that count fewer than 2 ^ 31 bytes.
pub record Channel : Type 0 where
  pub fd : ℤ
  pub active : Bool
  pub received_count : ℕ
  pub received : List ℕ
  pub sending : List ℕ
  pub has_demultiplexer : Bool

-- What a call does outside the channel: `epoll_ctl` with or without EPOLLOUT or with the events as
-- they are, `shutdown` of either side, the three callbacks, and a call through a null pointer.
pub data Effect : Type 0 where
  watch_out unwatch_out rewatch : Effect
  shut_receive shut_send : Effect
  received_cb : ℕ → List ℕ → Effect
  sent_cb : ℕ → List ℕ → Effect
  data_ready closed : Effect
  null_call : Effect

-- `Channel(fd, ptr)`
unfoldable pub init : ℤ → Bool → Channel
init fd ptr = record {
  fd = fd;
  active = is_positive fd;
  received_count = 0;
  received = replicate buf_size b'-';
  sending = [];
  has_demultiplexer = ptr;
}

-- `_receivedBuf.substr(0, n)`: the string has `buf_size` characters, whatever its capacity.
abbrev pub substr : List ℕ → ℕ → List ℕ
substr m n = take n (take buf_size m)

abbrev when : Bool → List Effect → List Effect
when true es = es
when false es = []

-- `DisableReceive` and `DisableSend`
unfoldable pub disable_receive : Channel → List Effect
disable_receive c = if c.active then Effect.shut_receive ∷ [] else []

unfoldable pub disable_send : Channel → List Effect
disable_send c = if c.active then Effect.shut_send ∷ [] else []

-- `~Channel()`: the flag is cleared before the two calls.
unfoldable pub destroy : Channel → List Effect
unfolding disable_send disable_receive
destroy c =
    let c' : Channel = record c { active = false; has_demultiplexer = false } in
    disable_send c' ++ disable_receive c'

-- `SetDemultiplexer(ptr)` and `Inactive()`
unfoldable pub set_demultiplexer : Bool → Channel → Channel
set_demultiplexer ptr c = record c { has_demultiplexer = ptr }

unfoldable pub make_inactive : Channel → Channel
make_inactive c = record c { active = false }

-- What the loop of `Read` does with the result of `::read`: bytes land behind those that are counted,
-- and `next` goes round again with their number; otherwise the loop ends, and says whether by a 0.
unfoldable pub after_read :
    {S : Type 0}
    → (Channel → S → ℕ → Option (Channel × S × Bool))
    → Channel
    → Got
    → S
    → Option (Channel × S × Bool)
after_read next c (Got.bytes b) s =
    next (record c { received = copy_at c.received c.received_count b }) s (length b)
after_read next c Got.eof s = some (c, s, true)
after_read next c Got.failed s = some (c, s, false)

-- What `Read` does behind the loop and the global callback, `at_eof` being `got == 0`.
unfoldable pub closing_effects : Bool → Channel → Bool → List Effect
unfolding disable_receive disable_send
closing_effects has_notify c true =
    disable_receive c ++ (disable_send c ++ when has_notify (Effect.closed ∷ []))
closing_effects has_notify c false = when has_notify (Effect.data_ready ∷ [])

-- What `Read` does behind the loop.
unfoldable pub read_end : Bool → Bool → Channel → Bool → Channel × List Effect
unfolding closing_effects
read_end has_cb has_notify c at_eof = (
  if at_eof then record c { active = false } else c,
  when has_cb (Effect.received_cb c.received_count (substr c.received c.received_count) ∷ [])
      ++ closing_effects has_notify c at_eof,
)

module _ {S : Type 0} (socket : Socket S) (string : Reserve) where
  -- The body of the loop of `Read` in front of `::read`: `got` is what the last read returned, and
  -- `valid` the room that it had.
  unfoldable pub make_room : Channel → ℕ → ℕ → Channel
  make_room c got valid = record c {
    received =
        if valid == got then string.reserve c.received (3 * length c.received / 2) else c.received;
    received_count = c.received_count + got;
  }

  -- The loop of `Read`, on fuel: the channel, the socket, and whether the last read returned 0.
  unfoldable pub read_loop : ℕ → Channel → S → ℕ → ℕ → Option (Channel × S × Bool)
  unfolding make_room after_read
  read_loop zero c s got valid = none
  read_loop (suc fuel) c s got valid =
      let c' = make_room c got valid in
      let room = length c'.received - c'.received_count in
      let (g, s') = socket.read s room in
      after_read (λ c'' s'' n. read_loop fuel c'' s'' n room) c' g s'

  -- `Read()`, with the callbacks that are set.
  unfoldable pub read : ℕ → Bool → Bool → Channel → S → Option (Channel × S × List Effect)
  unfolding read_loop read_end
  read fuel has_cb has_notify c s =
      if c.active
      then (elim (read_loop fuel c s 0 (length c.received - c.received_count)) [
        | none ↦ none
        | some (c', s', at_eof) ↦
            let (c'', es) = read_end has_cb has_notify c' at_eof in some (c'', s', es)
      ])
      else some (c, s, [])

-- `Write()`
unfoldable pub write : {S : Type 0} → Socket S → Bool → Channel → S → Channel × S × List Effect
unfolding disable_send
write socket has_cb c s =
    if not c.active
    then (c, s, [])
    else (if ltb (length c.sending) 1
        then (c, s, if c.has_demultiplexer then Effect.unwatch_out ∷ [] else Effect.null_call ∷ [])
        else (let (r, s') = socket.write s c.sending in
            elim r [
              | none ↦ (c, s', disable_send c)
              | some sent ↦
                  if ltb 0 sent
                  then (
                    record c { sending = drop sent c.sending },
                    s',
                    when has_cb (Effect.sent_cb sent (take sent c.sending) ∷ []),
                  )
                  else (c, s', when c.has_demultiplexer (Effect.rewatch ∷ []))
            ]))

-- `NotifyWriteEvent(data)`: all three branches put the bytes at the end.
unfoldable pub notify_write_event : List ℕ → Channel → Channel × List Effect
notify_write_event more c =
    if c.active
    then (
      record c { sending = if length c.sending == 0 then more ++ c.sending else c.sending ++ more },
      when c.has_demultiplexer (Effect.watch_out ∷ []),
    )
    else (c, [])

-- `GetReceivedData()`
unfoldable pub get_received_data : Channel → List ℕ × Channel
get_received_data c =
    if not c.active
    then ([], c)
    else (if ltb c.received_count 1
        then ([], c)
        else (substr c.received c.received_count, record c { received_count = 0 }))
