-- ===== src/Reactor/Delivery/Arrival.antt =====
-- From an event of a connection to the tasks of the application.
use server_dev_lib.Base.{
  ℕ, ◌+◌, ◌-◌, ◌≤◌, ◌<◌, ◌≡◌, ◌≢◌, refl, ap, ◌∙◌, Bool, true, false, not, Option, none, some, List,
  [], ◌++◌, length, take, Bool-cases, inl, inr,
}
use server_dev_lib.Base.Map.{lookup, update, lookup-update_same}
use server_dev_lib.Base.Int.{ℤ, int_eq}
use server_dev_lib.Reactor.Channel.{
  Channel, Socket, Reserve, Effect, buf_size, substr, read_loop, read_end, closing_effects,
  disable_receive, disable_send, get_received_data,
}
use server_dev_lib.Reactor.Channel.Honest.{IsHonest}
use server_dev_lib.Reactor.Channel.Receive.{read-result}
use server_dev_lib.Reactor.Channel.Shown.{substr-shown}
use server_dev_lib.Reactor.Channel.Ending.{Never, EndsWith, read_loop-EndsWith}
use server_dev_lib.Reactor.Channel.Total.{loop-Ended}
use server_dev_lib.Reactor.Dispatcher.{Events, is_unexpected}
use server_dev_lib.Reactor.EventsHandler.{handle-reads}
use server_dev_lib.Reactor.Notification.{Waiting, notify_data_ready, notify_close}
use server_dev_lib.Reactor.Delivery.{Center, notified, on_event, handle_ready}
use server_dev_lib.Reactor.Delivery.Handed.{IsKeyed, bytes_for, held, held_lem, store-IsKeyed}
use server_dev_lib.Reactor.Delivery.Due.{has_due-notify}
use server_dev_lib.Reactor.Delivery.Kept.{handle_drains, handle_idle}

-- What the callbacks of `Read` do to the ready states.
told : Bool → ℤ → Waiting → Waiting
told true fd m = notify_close fd m
told false fd m = notify_data_ready fd m

read_end-told :
    (has_cb at_eof : Bool) (c : Channel) (fd : ℤ) (m : Waiting)
    → notified fd (read_end has_cb true c at_eof).1 m ≡ told at_eof fd m
unfolding read_end closing_effects notified told disable_receive disable_send
read_end-told true true c fd m = elim (Bool-cases c.active) [
  | inl on ↦ rw on refl
  | inr off ↦ rw off refl
]
read_end-told false true c fd m = elim (Bool-cases c.active) [
  | inl on ↦ rw on refl
  | inr off ↦ rw off refl
]
read_end-told true false c fd m = refl
read_end-told false false c fd m = refl

read_end-fd : (has_cb at_eof : Bool) (c : Channel) → (read_end has_cb true c at_eof).0.fd ≡ c.fd
unfolding read_end
read_end-fd has_cb true c = refl
read_end-fd has_cb false c = refl

other_way : (b d : Bool) → d ≢ b → d ≡ not b
other_way true true h = absurd (h refl)
other_way true false h = refl
other_way false true h = refl
other_way false false h = absurd (h refl)

answered :
    {S : Type 0} → ℤ → Center → Option (Channel × S × List Effect) → Option (Channel × Center × S)
answered fd r none = none
answered fd r (some (c', s', es)) = some (
  c',
  record r { channels = update fd (λ old. c') r.channels; waiting = notified c'.fd es r.waiting },
  s',
)

module _ {S : Type 0} {socket : Socket S} (string : Reserve) {pending : S → List ℕ}
    (honest : IsHonest socket pending) where
  -- An event with input, when the loop of `Read` ends.
  on_event_lem :
      (fuel : ℕ) (has_cb has_sent : Bool) (e : Events) (fd : ℤ) (c c1 : Channel) (s s1 : S)
      (r : Center) (at_eof : Bool)
      → c.active ≡ true
      → is_unexpected e ≡ false
      → e.input ≡ true
      → c1.fd ≡ fd
      → read_loop socket string fuel c s 0 (length c.received - c.received_count)
        ≡ some (c1, s1, at_eof)
      → on_event socket string fuel has_cb has_sent e fd c s r
        ≡ some (
          (read_end has_cb true c1 at_eof).0,
          record r {
            channels = update fd (λ old. (read_end has_cb true c1 at_eof).0) r.channels;
            waiting = told at_eof fd r.waiting;
          },
          s1,
        )
  unfolding on_event answered
  on_event_lem fuel has_cb has_sent e fd c c1 s s1 r at_eof on plain input same_fd looped =
      let (c2, es) = read_end has_cb true c1 at_eof in
      let here : c2.fd ≡ fd = read_end-fd has_cb at_eof c1 ∙ same_fd in
      ap (answered fd r) (handle-reads socket string fuel has_cb true has_sent e c s on plain input)
      ∙ ap (answered fd r) (read-result string honest fuel has_cb true c c1 s s1 at_eof on looped)
      ∙ ap
          (λ w.
            some (c2, record r { channels = update fd (λ old. c2) r.channels; waiting = w }, s1))
          (ap (λ i. notified i es r.waiting) here ∙ read_end-told has_cb at_eof c1 fd r.waiting)

  -- A loop that does not end in one way ends in the other.
  loop_ends :
      (b : Bool)
      → Never socket b
      → (fuel : ℕ) (c : Channel) (s : S) (c1 : Channel) (s1 : S) (at_eof : Bool)
      → read_loop socket string fuel c s 0 (length c.received - c.received_count)
        ≡ some (c1, s1, at_eof)
      → read_loop socket string fuel c s 0 (length c.received - c.received_count)
        ≡ some (c1, s1, not b)
  unfolding EndsWith
  loop_ends b never fuel c s c1 s1 at_eof looped =
      looped
      ∙ ap (λ d. some (c1, s1, d))
          (other_way b at_eof (
            read_loop-EndsWith socket string b never fuel c s 0
              (length c.received - c.received_count) c1 s1 at_eof looped))

  -- An event with input on an active channel, over a socket that does not block, with a block of at
  -- least the size of the string and more fuel than pending bytes, when no read reports the end of
  -- the stream and every channel stands under its descriptor; and then a pass of `HandleReadyData`:
  -- the event is handled, nothing stays pending, and the tasks of the connection have got what was
  -- counted and what was pending, in order, up to the size of the string, and nothing else.
  pub arrival_lem :
      (fuel : ℕ) (has_cb has_sent : Bool) (e : Events) (fd : ℤ) (c : Channel) (s : S) (r : Center)
      → IsKeyed r.channels
      → lookup fd r.channels ≡ some c
      → c.active ≡ true
      → is_unexpected e ≡ false
      → e.input ≡ true
      → length (pending s) < fuel
      → c.received_count ≤ length c.received
      → buf_size ≤ length c.received
      → Never socket true
      → (c' : Channel) × (r' : Center) × (s' : S) × (on_event socket string fuel has_cb has_sent e
            fd c s r
          ≡ some (c', r', s'))
        × (bytes_for fd (handle_ready r').tasks
            ≡ bytes_for fd r.tasks ++ take buf_size (take c.received_count c.received ++ pending s))
        × (pending s' ≡ [])
  unfolding read_end told IsKeyed
  arrival_lem fuel has_cb has_sent e fd c s r keyed found on plain input f fits block never =
      let x = loop-Ended string honest fuel c s f fits block in
      let c1 = x.channel in
      let all = take c.received_count c.received ++ pending s in
      let r' : Center = record r {
        channels = update fd (λ old. c1) r.channels;
        waiting = notify_data_ready fd r.waiting;
      } in
      let looped = loop_ends true never fuel c s x.channel x.rest x.at_eof x.result in
      let shows : held c1 ≡ take buf_size all =
        held_lem c1 (x.still ∙ on)
        ∙ ap (substr c1.received) x.counted
        ∙ substr-shown c1.received all (c.received_count + length (pending s)) x.seen in
      (
        c1,
        r',
        x.rest,
        on_event_lem fuel has_cb has_sent e fd c c1 s x.rest r false on plain input
            (x.same_fd ∙ keyed fd c found) looped,
        handle_drains fd c1 r' (store-IsKeyed fd c c1 r.channels found x.same_fd keyed)
              (lookup-update_same fd (λ old. c1) r.channels c found) (has_due-notify fd r.waiting)
            ∙ ap (λ b. bytes_for fd r.tasks ++ b) shows,
        x.drained,
      )

  -- The same event when the stream ends behind what is pending: a pass of `HandleReadyData` then puts
  -- no byte of the connection into a task, whatever was counted or pending.
  pub closing_loses :
      (fuel : ℕ) (has_cb has_sent : Bool) (e : Events) (fd : ℤ) (c : Channel) (s : S) (r : Center)
      → IsKeyed r.channels
      → lookup fd r.channels ≡ some c
      → c.active ≡ true
      → is_unexpected e ≡ false
      → e.input ≡ true
      → length (pending s) < fuel
      → c.received_count ≤ length c.received
      → buf_size ≤ length c.received
      → Never socket false
      → (c' : Channel) × (r' : Center) × (s' : S) × (on_event socket string fuel has_cb has_sent e
            fd c s r
          ≡ some (c', r', s'))
        × (bytes_for fd (handle_ready r').tasks ≡ bytes_for fd r.tasks)
        × (pending s' ≡ [])
  unfolding read_end told IsKeyed get_received_data
  closing_loses fuel has_cb has_sent e fd c s r keyed found on plain input f fits block never =
      let x = loop-Ended string honest fuel c s f fits block in
      let c1 : Channel = record x.channel { active = false } in
      let r' : Center = record r {
        channels = update fd (λ old. c1) r.channels;
        waiting = notify_close fd r.waiting;
      } in
      let looped = loop_ends false never fuel c s x.channel x.rest x.at_eof x.result in
      (
        c1,
        r',
        x.rest,
        on_event_lem fuel has_cb has_sent e fd c x.channel s x.rest r true on plain input
            (x.same_fd ∙ keyed fd c found) looped,
        handle_idle fd c1 r' (store-IsKeyed fd c c1 r.channels found x.same_fd keyed)
            (lookup-update_same fd (λ old. c1) r.channels c found) refl,
        x.drained,
      )
