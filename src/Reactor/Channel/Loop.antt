-- ===== src/Reactor/Channel/Loop.antt =====
-- The loop of `Read` of Channel.h when all that is pending fits the block.
use server_dev_lib.Base.{
  ℕ, zero, suc, ◌+◌, ◌-◌, ◌<◌, ◌≡◌, refl, sym, ap, ◌∙◌, Bool, true, false, Option, some, List, [],
  ◌++◌, append-nil, append_assoc, arith, ◌==◌, length, take, copy_at, length-copy_at, take-copy_at,
  length-append,
}
use server_dev_lib.Reactor.Channel.{Channel, Socket, Reserve, Got, make_room, after_read, read_loop}
use server_dev_lib.Reactor.Channel.Honest.{IsHonest, Delivers}

module _ {S : Type 0} {socket : Socket S} (string : Reserve) {pending : S → List ℕ}
    (honest : IsHonest socket pending) where
  -- What the loop leaves when all that is pending fits the block.
  pub record Received (c : Channel) (s : S) (total : ℕ) (front : List ℕ)
      (out : Option (Channel × S × Bool)) : Type 0 where
    pub channel : Channel
    pub rest : S
    pub at_eof : Bool
    pub result : out ≡ some (channel, rest, at_eof)
    pub counted : channel.received_count ≡ total
    pub kept : take total channel.received ≡ front
    pub block : length channel.received ≡ length c.received
    pub drained : pending rest ≡ []
    pub still : channel.active ≡ c.active

  nothing_more :
      (c : Channel) (s : S)
      → pending s ≡ []
      → take (c.received_count + length (pending s)) c.received
        ≡ take c.received_count c.received ++ pending s
  nothing_more c s e =
      let same : c.received_count + length (pending s) ≡ c.received_count =
        omega (arith, ap length e) in
      rw (same, e, append-nil) refl

  after_read-Received :
      (c : Channel) (s s' : S) (g : Got) (next : Channel → S → ℕ → Option (Channel × S × Bool))
      → c.received_count + length (pending s) < length c.received
      → Delivers (length c.received - c.received_count) (pending s) g (pending s')
      → ((b : List ℕ)
          → 0 < length b
          → length b + length (pending s') ≡ length (pending s)
          → let c' = record c { received = copy_at c.received c.received_count b } in
            Received c' s'
              (c.received_count + length b + length (pending s'))
              (take (c.received_count + length b) c'.received ++ pending s')
              (next c' s' (length b)))
      → Received c s
          (c.received_count + length (pending s))
          (take c.received_count c.received ++ pending s)
          (after_read next c g s')
  unfolding after_read
  after_read-Received c s s' (Got.bytes b) next room (some_bytes, fit, flow) ih = record {
    channel = r.channel;
    rest = r.rest;
    at_eof = r.at_eof;
    result = r.result;
    counted = omega (arith, r.counted, lengths);
    kept = rw (← total) (r.kept ∙ front);
    block = r.block ∙ length-copy_at c.received c.received_count b;
    drained = r.drained;
    still = r.still;
  }
    where
      lengths : length b + length (pending s') ≡ length (pending s)
      lengths = sym (length-append b (pending s')) ∙ ap length flow

      c' : Channel
      c' = record c { received = copy_at c.received c.received_count b }

      r :
          Received c' s'
            (c.received_count + length b + length (pending s'))
            (take (c.received_count + length b) c'.received ++ pending s')
            (next c' s' (length b))
      r = ih b some_bytes lengths

      total :
          c.received_count + length b + length (pending s') ≡ c.received_count + length (pending s)
      total = omega (arith, lengths)

      front :
          take (c.received_count + length b) c'.received ++ pending s'
          ≡ take c.received_count c.received ++ pending s
      front =
          rw
            (
              take-copy_at c.received c.received_count b (omega (arith, lengths)),
              append_assoc (take c.received_count c.received) b (pending s'),
              flow,
            )
            refl
  after_read-Received c s s' Got.eof next room (before, after) ih = record {
    channel = c;
    rest = s';
    at_eof = true;
    result = refl;
    counted = omega (arith, ap length before);
    kept = nothing_more c s before;
    block = refl;
    drained = after;
    still = refl;
  }
  after_read-Received c s s' Got.failed next room (before, after) ih = record {
    channel = c;
    rest = s';
    at_eof = false;
    result = refl;
    counted = omega (arith, ap length before);
    kept = nothing_more c s before;
    block = refl;
    drained = after;
    still = refl;
  }

  read_loop-Received :
      (fuel : ℕ) (c : Channel) (s : S) (got : ℕ)
      → length (pending s) < fuel
      → c.received_count + got + length (pending s) < length c.received
      → Received c s
          (c.received_count + got + length (pending s))
          (take (c.received_count + got) c.received ++ pending s)
          (read_loop socket string fuel c s got (length c.received - c.received_count))
  unfolding read_loop make_room
  read_loop-Received zero c s got f room = absurd (omega arith)
  read_loop-Received (suc fuel) c s got f room =
      let no_growth : ((length c.received - c.received_count) == got) ≡ false = ground arith in
      let k = c.received_count + got in
      let counted : Channel = record c { received_count = k } in
      let left = length c.received - k in
      let (g, s') = socket.read s left in
      rw no_growth (
        again (
          after_read-Received counted s s' g
            (λ c'' s'' n. read_loop socket string fuel c'' s'' n left) room
            (honest.delivers s left (omega arith))
            λ b some_bytes lengths. rw (length-copy_at c.received k b) at (
              read_loop-Received fuel (record counted { received = copy_at c.received k b }) s'
                (length b) (omega arith) (omega (arith, length-copy_at c.received k b)))))
    where
      again :
          {total : ℕ} {front : List ℕ} {out : Option (Channel × S × Bool)}
          → Received (record c { received_count = c.received_count + got }) s total front out
          → Received c s total front out
      again r = record {
        channel = r.channel;
        rest = r.rest;
        at_eof = r.at_eof;
        result = r.result;
        counted = r.counted;
        kept = r.kept;
        block = r.block;
        drained = r.drained;
        still = r.still;
      }

  -- The loop as `Read` enters it.
  pub loop-Received :
      (fuel : ℕ) (c : Channel) (s : S)
      → length (pending s) < fuel
      → c.received_count + length (pending s) < length c.received
      → Received c s
          (c.received_count + length (pending s))
          (take c.received_count c.received ++ pending s)
          (read_loop socket string fuel c s 0 (length c.received - c.received_count))
  loop-Received fuel c s f room =
      let none_yet : c.received_count + 0 ≡ c.received_count = omega arith in
      rw none_yet at (read_loop-Received fuel c s 0 f (omega arith))
