-- ===== src/Reactor/Channel/Total.antt =====
-- `Read` of Channel.h returns, as long as the bytes that wait can be counted in an `int`: the block grows
-- as they come, and the string shows the first of them.
use server_dev_lib.Base.{
  ℕ, zero, suc, ◌+◌, ◌-◌, ◌^◌, ◌≤◌, ◌<◌, ◌≡◌, refl, sym, ap, ◌∙◌, Bool, true, false, Option, some,
  List, [], ◌∷◌, ◌++◌, append-nil, append_assoc, arith, length, take, copy_at, length-copy_at,
  take-copy_at, length-append,
}
use server_dev_lib.Reactor.Channel.{
  Channel, Socket, Reserve, Got, Effect, buf_size, substr, make_room, after_read, read_loop,
  read_end, read,
}
use server_dev_lib.Reactor.Channel.Room.{HasRoom, make_room-HasRoom, make_room-shown}
use server_dev_lib.Reactor.Channel.Shown.{shown, read_end-shown}
use server_dev_lib.Reactor.Channel.Honest.{IsHonest, Delivers}
use server_dev_lib.Reactor.Channel.Receive.{read-result}

module _ {S : Type 0} {socket : Socket S} (string : Reserve) {pending : S → List ℕ}
    (honest : IsHonest socket pending) where
  -- What the loop leaves: it has ended, and `total` bytes are counted, which begin like `all`.
  pub record Ended (c : Channel) (total : ℕ) (all : List ℕ) (out : Option (Channel × S × Bool))
      : Type 0 where
    pub channel : Channel
    pub rest : S
    pub at_eof : Bool
    pub result : out ≡ some (channel, rest, at_eof)
    pub counted : channel.received_count ≡ total
    pub seen : shown (take total channel.received) ≡ shown all
    pub drained : pending rest ≡ []
    pub still : channel.active ≡ c.active
    pub same_fd : channel.fd ≡ c.fd

  -- The loop stops with nothing left.
  stopped :
      (c : Channel) (s s' : S) (at_eof : Bool)
      → pending s ≡ []
      → pending s' ≡ []
      → Ended c
          (c.received_count + length (pending s))
          (take c.received_count c.received ++ pending s)
          (some (c, s', at_eof))
  stopped c s s' at_eof before after = record {
    channel = c;
    rest = s';
    at_eof = at_eof;
    result = refl;
    counted = omega (arith, ap length before);
    seen = ap shown (ap (λ n. take n c.received) same ∙ sym all);
    drained = after;
    still = refl;
    same_fd = refl;
  }
    where
      same : c.received_count + length (pending s) ≡ c.received_count
      same = omega (arith, ap length before)

      all : take c.received_count c.received ++ pending s ≡ take c.received_count c.received
      all = rw before (append-nil (take c.received_count c.received))

  -- One result of `::read`, and the rest of the loop.
  after_read-Ended :
      (c : Channel) (s s' : S) (g : Got) (next : Channel → S → ℕ → Option (Channel × S × Bool))
      → HasRoom c
      → Delivers (length c.received - c.received_count) (pending s) g (pending s')
      → ((b : List ℕ)
          → 0 < length b
          → c.received_count + length b ≤ length c.received
          → length b + length (pending s') ≡ length (pending s)
          → let c' = record c { received = copy_at c.received c.received_count b } in
            Ended c'
              (c.received_count + length b + length (pending s'))
              (take (c.received_count + length b) c'.received ++ pending s')
              (next c' s' (length b)))
      → Ended c
          (c.received_count + length (pending s))
          (take c.received_count c.received ++ pending s)
          (after_read next c g s')
  unfolding after_read
  after_read-Ended c s s' (Got.bytes b) next h (some_bytes, fit, flow) ih = record {
    channel = r.channel;
    rest = r.rest;
    at_eof = r.at_eof;
    result = r.result;
    counted = omega (arith, r.counted, lengths);
    seen = rw (← total) (r.seen ∙ ap shown front);
    drained = r.drained;
    still = r.still;
    same_fd = r.same_fd;
  }
    where
      lengths : length b + length (pending s') ≡ length (pending s)
      lengths = sym (length-append b (pending s')) ∙ ap length flow

      c' : Channel
      c' = record c { received = copy_at c.received c.received_count b }

      within : c.received_count + length b ≤ length c.received
      within = omega (arith, h.room)

      r :
          Ended c'
            (c.received_count + length b + length (pending s'))
            (take (c.received_count + length b) c'.received ++ pending s')
            (next c' s' (length b))
      r = ih b some_bytes within lengths

      total :
          c.received_count + length b + length (pending s') ≡ c.received_count + length (pending s)
      total = omega (arith, lengths)

      front :
          take (c.received_count + length b) c'.received ++ pending s'
          ≡ take c.received_count c.received ++ pending s
      front =
          rw
            (
              take-copy_at c.received c.received_count b within,
              append_assoc (take c.received_count c.received) b (pending s'),
              flow,
            )
            refl
  after_read-Ended c s s' Got.eof next h (before, after) ih = stopped c s s' true before after
  after_read-Ended c s s' Got.failed next h (before, after) ih = stopped c s s' false before after

  read_loop-Ended :
      (fuel : ℕ) (c : Channel) (s : S) (got : ℕ)
      → length (pending s) < fuel
      → c.received_count + got ≤ length c.received
      → buf_size ≤ length c.received
      → Ended c
          (c.received_count + got + length (pending s))
          (take (c.received_count + got) c.received ++ pending s)
          (read_loop socket string fuel c s got (length c.received - c.received_count))
  unfolding read_loop make_room
  read_loop-Ended zero c s got f fits block = absurd (omega arith)
  read_loop-Ended (suc fuel) c s got f fits block = made (
      after_read-Ended c1 s s' g (λ c'' s'' n. read_loop socket string fuel c'' s'' n room) h
        (honest.delivers s room (omega (arith, h.room)))
        λ b some_bytes within lengths. rw (length-copy_at c1.received c1.received_count b) at (
          read_loop-Ended fuel (record c1 { received = copy_at c1.received c1.received_count b }) s'
            (length b) (omega arith) (rw (length-copy_at c1.received c1.received_count b) within)
            (rw (length-copy_at c1.received c1.received_count b) h.block)))
    where
      c1 : Channel
      c1 = make_room socket string c got (length c.received - c.received_count)

      h : HasRoom c1
      h = make_room-HasRoom socket string c got fits block

      room : ℕ
      room = length c1.received - c1.received_count

      g : Got
      g = (socket.read s room).0

      s' : S
      s' = (socket.read s room).1

      made :
          {out : Option (Channel × S × Bool)}
          → Ended c1
              (c.received_count + got + length (pending s))
              (take c1.received_count c1.received ++ pending s)
              out
          → Ended c
              (c.received_count + got + length (pending s))
              (take (c.received_count + got) c.received ++ pending s)
              out
      made r = record {
        channel = r.channel;
        rest = r.rest;
        at_eof = r.at_eof;
        result = r.result;
        counted = r.counted;
        seen = r.seen ∙ make_room-shown socket string c got (pending s) block;
        drained = r.drained;
        still = r.still;
        same_fd = r.same_fd;
      }

  -- The loop as `Read` enters it.
  pub loop-Ended :
      (fuel : ℕ) (c : Channel) (s : S)
      → length (pending s) < fuel
      → c.received_count ≤ length c.received
      → buf_size ≤ length c.received
      → Ended c
          (c.received_count + length (pending s))
          (take c.received_count c.received ++ pending s)
          (read_loop socket string fuel c s 0 (length c.received - c.received_count))
  loop-Ended fuel c s f fits block =
      let none_yet : c.received_count + 0 ≡ c.received_count = omega arith in
      rw none_yet at (read_loop-Ended fuel c s 0 f (omega arith) block)

  -- `Read` with the callback, on an active channel over a socket that does not block, with a block of
  -- at least the size of the string, fewer than 2 ^ 31 bytes counted and pending, so that
  -- `_receivedCount` does not overflow, and more fuel than pending bytes: it returns, with nothing
  -- pending; the number of all bytes, counted and pending, is reported and kept in the channel, and the
  -- callback and the channel show the first 128 of them, in order.
  pub read_total :
      (fuel : ℕ) (has_notify : Bool) (c : Channel) (s : S)
      → c.active ≡ true
      → length (pending s) < fuel
      → c.received_count ≤ length c.received
      → buf_size ≤ length c.received
      → c.received_count + length (pending s) < 2 ^ 31
      → let n = c.received_count + length (pending s) in
        let all = take c.received_count c.received ++ pending s in
        (c' : Channel) × (s' : S) × (rest : List Effect) × (read socket string fuel true has_notify
            c s
          ≡ some (c', s', Effect.received_cb n (take buf_size all) ∷ rest))
        × (c'.received_count ≡ n)
        × (substr c'.received n ≡ take buf_size all)
        × (pending s' ≡ [])
  read_total fuel has_notify c s on f fits block small =
      let (c', es) = read_end true has_notify r.channel r.at_eof in
      let (rest, told, n, held) =
        read_end-shown r.channel has_notify r.at_eof _ _ r.counted r.seen in
      (
        c',
        r.rest,
        rest,
        read-result string honest fuel true has_notify c r.channel s r.rest r.at_eof on r.result
            ∙ ap (λ e. some (c', r.rest, e)) told,
        n,
        held,
        r.drained,
      )
    where
      r :
          Ended c
            (c.received_count + length (pending s))
            (take c.received_count c.received ++ pending s)
            (read_loop socket string fuel c s 0 (length c.received - c.received_count))
      r = loop-Ended fuel c s f fits block
