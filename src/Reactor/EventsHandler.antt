-- ===== src/Reactor/EventsHandler.antt =====
-- include/server/reactor/EventsHandler.h: what an event does to the channel of a connection.
use server_dev_lib.Base.{
  ℕ, zero, suc, ◌≡◌, refl, ◌∙◌, sym, subst, Bool, true, false, Option, none, some, List, [], ◌∷◌,
  ◌++◌, if◌then◌else◌, arith, ◌+◌, ◌-◌, ◌≤◌, ◌<◌, length, take, copy_at, Option-cases, inl, inr,
}
use server_dev_lib.Reactor.Channel.{
  Channel, Socket, Reserve, Got, Effect, make_room, after_read, read_loop, read_end, read, write,
  disable_send, disable_receive, buf_size,
}
use server_dev_lib.Reactor.Channel.Honest.{IsHonest}
use server_dev_lib.Reactor.Channel.Receive.{read_delivers}
use server_dev_lib.Reactor.Dispatcher.{Events, is_unexpected}

module _ {S : Type 0} (socket : Socket S) (string : Reserve) where
  -- `HandleEvent(events)` of a handler that has a channel; `has_sent` says whether the global callback
  -- for what was sent is set, `has_cb` and `has_notify` are as for `Read`.
  unfoldable pub handle_event :
      ℕ → Bool → Bool → Bool → Events → Channel → S → Option (Channel × S × List Effect)
  handle_event fuel has_cb has_notify has_sent e c s =
      if c.active
      then (if is_unexpected e
          then some (c, s, disable_send c ++ disable_receive c)
          else (if e.input
              then read socket string fuel has_cb has_notify c s
              else (if e.output then some (write socket has_sent c s) else some (c, s, []))))
      else some (c, s, [])

  -- A result of the loop leaves what is to be sent as `c` has it.
  KeepsSending : {A : Type 0} → Channel → Option (Channel × S × A) → Type 0
  KeepsSending {A = A} c out =
      (c' : Channel) (s' : S) (a : A) → out ≡ some (c', s', a) → c'.sending ≡ c.sending

  after_read-KeepsSending :
      (next : Channel → S → ℕ → Option (Channel × S × Bool)) (c0 c : Channel) (g : Got) (s : S)
      → c.sending ≡ c0.sending
      → ((d : Channel) (s' : S) (n : ℕ) → d.sending ≡ c0.sending → KeepsSending c0 (next d s' n))
      → KeepsSending c0 (after_read next c g s)
  unfolding after_read KeepsSending
  after_read-KeepsSending next c0 c (Got.bytes b) s h ih =
      ih (record c { received = copy_at c.received c.received_count b }) s (length b) h
  after_read-KeepsSending next c0 c Got.eof s h ih = λ c' s' a e. ground (arith, e, h)
  after_read-KeepsSending next c0 c Got.failed s h ih = λ c' s' a e. ground (arith, e, h)

  read_loop-KeepsSending :
      (fuel : ℕ) (c0 c : Channel) (s : S) (got valid : ℕ)
      → c.sending ≡ c0.sending
      → KeepsSending c0 (read_loop socket string fuel c s got valid)
  unfolding read_loop make_room KeepsSending
  read_loop-KeepsSending zero c0 c s got valid h = λ c' s' a e. cc
  read_loop-KeepsSending (suc fuel) c0 c s got valid h =
      let c' = make_room socket string c got valid in
      let room = length c'.received - c'.received_count in
      after_read-KeepsSending (λ d s' n. read_loop socket string fuel d s' n room) c0 c'
        (socket.read s room).0 (socket.read s room).1 h
        λ d s' n k. read_loop-KeepsSending fuel c0 d s' n room k

  stuck : (c : Channel) → KeepsSending {A = List Effect} c none
  unfolding KeepsSending
  stuck c c' s' a e = cc

  ended_keeps :
      (c c' : Channel) (s' : S) (at_eof has_cb has_notify : Bool)
      → c'.sending ≡ c.sending
      → let (c'', es) = read_end has_cb has_notify c' at_eof in KeepsSending c (some (c'', s', es))
  unfolding read_end KeepsSending
  ended_keeps c c' s' at_eof has_cb has_notify h d t es e = ground (arith, h, e)

  read-over :
      (fuel : ℕ) (has_cb has_notify : Bool) (c : Channel) (s : S)
      → c.active ≡ true
      → read_loop socket string fuel c s 0 (length c.received - c.received_count) ≡ none
      → read socket string fuel has_cb has_notify c s ≡ none
  unfolding read
  read-over fuel has_cb has_notify c s on over = rw (over, read) (rw on refl)

  read-ended :
      (fuel : ℕ) (has_cb has_notify at_eof : Bool) (c c' : Channel) (s s' : S)
      → c.active ≡ true
      → read_loop socket string fuel c s 0 (length c.received - c.received_count)
        ≡ some (c', s', at_eof)
      → let (c'', es) = read_end has_cb has_notify c' at_eof in
        read socket string fuel has_cb has_notify c s ≡ some (c'', s', es)
  unfolding read
  read-ended fuel has_cb has_notify at_eof c c' s s' on ended = rw (ended, read) (rw on refl)

  read-KeepsSending :
      (fuel : ℕ) (has_cb has_notify : Bool) (c : Channel) (s : S)
      → c.active ≡ true
      → KeepsSending c (read socket string fuel has_cb has_notify c s)
  unfolding KeepsSending
  read-KeepsSending fuel has_cb has_notify c s on =
      let out = read_loop socket string fuel c s 0 (length c.received - c.received_count) in
      elim (Option-cases out) [
        | inl over ↦
            subst (λ o. KeepsSending c o) (sym (read-over fuel has_cb has_notify c s on over))
              (stuck c)
        | inr ((c', s', at_eof), ended) ↦
            subst (λ o. KeepsSending c o)
              (sym (read-ended fuel has_cb has_notify at_eof c c' s s' on ended))
              (ended_keeps c c' s' at_eof has_cb has_notify (
                read_loop-KeepsSending fuel c c s 0 (length c.received - c.received_count) refl c'
                  s' at_eof ended))
      ]

  pub handle-reads :
      (fuel : ℕ) (has_cb has_notify has_sent : Bool) (e : Events) (c : Channel) (s : S)
      → c.active ≡ true
      → is_unexpected e ≡ false
      → e.input ≡ true
      → handle_event fuel has_cb has_notify has_sent e c s
        ≡ read socket string fuel has_cb has_notify c s
  unfolding handle_event
  handle-reads fuel has_cb has_notify has_sent e c s on good readable = rw (on, good, readable) refl

  -- A handler of an active channel that is told of input, of nothing unexpected, and perhaps of room
  -- for output too, over a socket that does not block, where the bytes counted and those pending fit
  -- the string and leave room in its block, and the fuel is more than the pending bytes: all pending
  -- bytes are read and reported with those counted, and what is to be sent stays as it is, so that
  -- the room for output is not used.
  input_hides_output :
      {pending : S → List ℕ} (fuel : ℕ) (has_notify has_sent : Bool) (e : Events) (c : Channel)
      (s : S)
      → IsHonest socket pending
      → c.active ≡ true
      → is_unexpected e ≡ false
      → e.input ≡ true
      → length (pending s) < fuel
      → c.received_count + length (pending s) ≤ buf_size
      → c.received_count + length (pending s) < length c.received
      → let n = c.received_count + length (pending s) in
        let all = take c.received_count c.received ++ pending s in
        (c' : Channel) × (s' : S) × (rest : List Effect) × (handle_event fuel true has_notify
            has_sent e c s
          ≡ some (c', s', Effect.received_cb n all ∷ rest))
        × (pending s' ≡ [])
        × (c'.sending ≡ c.sending)
  unfolding KeepsSending
  input_hides_output fuel has_notify has_sent e c s honest on good readable f fit room =
      let (c', s', rest, done, n, held, drained) =
        read_delivers string honest fuel has_notify c s on f fit room in
      (
        c',
        s',
        rest,
        handle-reads fuel true has_notify has_sent e c s on good readable ∙ done,
        drained,
        read-KeepsSending fuel true has_notify c s on c' s' _ done,
      )
