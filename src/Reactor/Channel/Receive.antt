-- ===== src/Reactor/Channel/Receive.antt =====
-- What Channel.h receives: `Read` and `GetReceivedData` over a socket that does not block.
use server_dev_lib.Base.{
  ℕ, ◌+◌, ◌-◌, ◌≤◌, ◌<◌, ◌≡◌, refl, ap, ◌∙◌, Bool, true, false, some, List, [], ◌∷◌, ◌++◌, arith,
  min, ltb, length, take, take-take, length-take,
}
use server_dev_lib.Reactor.Channel.{
  Channel, Socket, Reserve, Effect, buf_size, substr, read_loop, read_end, closing_effects, read,
  get_received_data,
}
use server_dev_lib.Reactor.Channel.Honest.{IsHonest}
use server_dev_lib.Reactor.Channel.Loop.{loop-Received}

module _ {S : Type 0} {socket : Socket S} (string : Reserve) {pending : S → List ℕ}
    (honest : IsHonest socket pending) where
  -- What the callback is told, and what it leaves in the channel.
  Reported : Channel → Bool → ℕ → List ℕ → Channel × List Effect → Type 0
  Reported c has_notify n data_bytes (c', es) =
      (rest : List Effect) × (es ≡ Effect.received_cb n data_bytes ∷ rest)
      × (c'.received_count ≡ n)
      × (substr c'.received n ≡ data_bytes)

  read_end-Reported :
      (c : Channel) (has_notify at_eof : Bool) (n : ℕ) (front : List ℕ)
      → c.received_count ≡ n
      → take n c.received ≡ front
      → n ≤ buf_size
      → Reported c has_notify n front (read_end true has_notify c at_eof)
  unfolding read_end Reported
  read_end-Reported c has_notify at_eof n front e kept fit =
      (closing_effects has_notify c at_eof, rw (e, shown) refl, ground arith, ground (arith, shown))
    where
      shown : substr c.received n ≡ front
      shown =
          let m : min n buf_size ≡ n = omega arith in rw (take-take n buf_size c.received, m) kept

  pub read-result :
      (fuel : ℕ) (has_cb has_notify : Bool) (c c' : Channel) (s s' : S) (at_eof : Bool)
      → c.active ≡ true
      → read_loop socket string fuel c s 0 (length c.received - c.received_count)
        ≡ some (c', s', at_eof)
      → let (c'', es) = read_end has_cb has_notify c' at_eof in
        read socket string fuel has_cb has_notify c s ≡ some (c'', s', es)
  unfolding read
  read-result fuel has_cb has_notify c c' s s' at_eof on result = rw (result, read) (rw on refl)

  -- `Read` on an active channel over a socket that does not block, when the bytes counted and those
  -- pending together fit the string and leave room in its block, and the fuel is more than the pending
  -- bytes: the loop ends, nothing stays pending, the callback is given the number of all these bytes
  -- and the bytes themselves in order, and the channel holds them.
  pub read_delivers :
      (fuel : ℕ) (has_notify : Bool) (c : Channel) (s : S)
      → c.active ≡ true
      → length (pending s) < fuel
      → c.received_count + length (pending s) ≤ buf_size
      → c.received_count + length (pending s) < length c.received
      → let n = c.received_count + length (pending s) in
        let all = take c.received_count c.received ++ pending s in
        (c' : Channel) × (s' : S) × (rest : List Effect) × (read socket string fuel true has_notify
            c s
          ≡ some (c', s', Effect.received_cb n all ∷ rest))
        × (c'.received_count ≡ n)
        × (substr c'.received n ≡ all)
        × (pending s' ≡ [])
  unfolding Reported
  read_delivers fuel has_notify c s on f fit room =
      let r = loop-Received string honest fuel c s f room in
      let (c', es) = read_end true has_notify r.channel r.at_eof in
      let (rest, told, n, held) =
        read_end-Reported r.channel has_notify r.at_eof _ _ r.counted r.kept fit in
      (
        c',
        r.rest,
        rest,
        read-result fuel true has_notify c r.channel s r.rest r.at_eof on r.result
            ∙ ap (λ e. some (c', r.rest, e)) told,
        n,
        held,
        r.drained,
      )

length-substr :
    (m : List ℕ) (k n : ℕ)
    → n < k
    → (length (take k (take n m)) ≤ n) × (length (take k (take n m)) < k)
length-substr m k n h = omega (arith, length-take k (take n m), length-take n m)

-- `GetReceivedData` on an active channel that has counted more bytes than the string has characters
-- hands out at most that many characters, fewer than were counted, and forgets the rest.
get_received_data_truncates :
    (c : Channel)
    → c.active ≡ true
    → buf_size < c.received_count
    → let (handed, c') = get_received_data c in
      (length handed ≤ buf_size) × (length handed < c.received_count) × (c'.received_count ≡ 0)
unfolding get_received_data
get_received_data_truncates c on over =
    let some_counted : ltb c.received_count 1 ≡ false = ground arith in
    let (bounded, fewer) = length-substr c.received c.received_count buf_size over in
    rw (on, some_counted) (bounded, fewer, refl)
