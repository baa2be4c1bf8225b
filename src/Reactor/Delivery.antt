-- ===== src/Reactor/Delivery.antt =====
-- How received data gets to the application: an event makes a handler read a channel
-- (include/server/reactor/EventsHandler.h and Channel.h), the channel tells the notification center, and
-- `HandleReadyData` of include/server/reactor/NotificationCenter.h hands the data to the pool of threads.
-- Each function is one call, run alone.
pub mod Handed
pub mod Due
pub mod Kept
pub mod Refines
pub mod Arrival
mod Tests
use server_dev_lib.Base.{ℕ, Bool, true, Option, none, some, List, [], ◌∷◌, ◌++◌}
use server_dev_lib.Base.Map.{lookup, update}
use server_dev_lib.Base.Int.{ℤ, int_eq}
use server_dev_lib.Reactor.Channel.{
  Channel, Socket, Reserve, Effect, get_received_data, notify_write_event,
}
use server_dev_lib.Reactor.Dispatcher.{Events}
use server_dev_lib.Reactor.EventsHandler.{handle_event}
use server_dev_lib.Reactor.Notification.{
  ReadyState, Waiting, lower, notify_data_ready, notify_close,
}

-- The map of channels that the dispatcher and the center share, the ready states, and the tasks that
-- `HandleReadyData` has put into the pool: a handle with its data.
pub record Center : Type 0 where
  pub channels : List (ℤ × Channel)
  pub waiting : Waiting
  pub tasks : List (ℤ × List ℕ)

-- `SetDataReadyNotify` and `SetClosedNotify`: what the channel's calls of the two callbacks do.
unfoldable pub notified : ℤ → List Effect → Waiting → Waiting
notified fd [] m = m
notified fd (Effect.data_ready ∷ es) m = notified fd es (notify_data_ready fd m)
notified fd (Effect.closed ∷ es) m = notified fd es (notify_close fd m)
notified fd (e ∷ es) m = notified fd es m

-- An event of a connection, on fuel for `Read`: `c` is the channel of its `EventsHandler`, which is the
-- one that stands in the map under `fd`, if there is one.
unfoldable pub on_event :
    {S : Type 0}
    → Socket S
    → Reserve
    → ℕ
    → Bool
    → Bool
    → Events
    → ℤ
    → Channel
    → S
    → Center
    → Option (Channel × Center × S)
unfolding handle_event notified
on_event socket string fuel has_cb has_sent e fd c s r =
    elim (handle_event socket string fuel has_cb true has_sent e c s) [
      | none ↦ none
      | some (c', s', es) ↦ some (
        c',
        record r {
          channels = update fd (λ old. c') r.channels;
          waiting = notified c'.fd es r.waiting;
        },
        s',
      )
    ]

-- The body of the loop of `HandleReadyData` behind its test.
unfoldable pub hand_on : ℤ → Channel → Center → Center
unfolding get_received_data
hand_on fd c r = record r {
  channels = update fd (λ old. (get_received_data c).1) r.channels;
  waiting = update fd lower r.waiting;
  tasks = r.tasks ++ ((c.fd, (get_received_data c).0) ∷ []);
}

unfoldable pub handle_found : ℤ → Option Channel → ReadyState → Center → Center
unfolding hand_on
handle_found fd none state r = r
handle_found fd (some c) ReadyState.one r = r
handle_found fd (some c) ReadyState.more r = hand_on fd c r
handle_found fd (some c) ReadyState.more_plus r = hand_on fd c r

-- The loop of `HandleReadyData` over the copy of the ready states.
unfoldable pub handle_copy : Waiting → Center → Center
unfolding handle_found
handle_copy [] r = r
handle_copy ((fd, state) ∷ copy) r =
    handle_copy copy (handle_found fd (lookup fd r.channels) state r)

-- `HandleReadyData(fn, args)`
unfoldable pub handle_ready : Center → Center
unfolding handle_copy
handle_ready r = handle_copy r.waiting r

-- `NotifyResponseReady(fd, data)`
unfoldable pub notify_response_ready : ℤ → List ℕ → Center → Center × List Effect
unfolding notify_write_event
notify_response_ready fd data_bytes r = elim (lookup fd r.channels) [
  | none ↦ (r, [])
  | some c ↦
      let (c', es) = notify_write_event data_bytes c in
      (record r { channels = update fd (λ old. c') r.channels }, es)
]
