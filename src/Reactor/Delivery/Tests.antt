-- ===== src/Reactor/Delivery/Tests.antt =====
-- Runs from an event to the tasks, and the theorems at inputs that meet their hypotheses.
use server_dev_lib.Base.{ℕ, ◌≡◌, refl, true, false, some, List, [], ◌∷◌, arith}
use server_dev_lib.Base.Map.{lookup}
use server_dev_lib.Base.Int.{pos, int_eq}
use server_dev_lib.Reactor.Channel.{Channel, Effect, notify_write_event}
use server_dev_lib.Reactor.Channel.Samples.{
  list_socket, list_socket-IsHonest, list_socket-Never, growing, open_channel,
}
use server_dev_lib.Reactor.Dispatcher.{Events}
use server_dev_lib.Reactor.Notification.{ReadyState}
use server_dev_lib.Reactor.Delivery.{Center, on_event, handle_ready, notify_response_ready}
use server_dev_lib.Reactor.Delivery.Handed.{
  IsKeyed, bytes_for, held, no_channels-IsKeyed, add-IsKeyed,
}
use server_dev_lib.Reactor.Delivery.Kept.{handle_hands}
use server_dev_lib.Reactor.Delivery.Refines.{handles, handle_ready-counts}
use server_dev_lib.Reactor.Delivery.Due.{has_due}
use server_dev_lib.Reactor.Notification.Pending.{times, count}
use server_dev_lib.Reactor.Delivery.Arrival.{arrival_lem, closing_loses}

abbrev readable : Events
readable = record { input = true; output = false; err = false; hup = false; rdhup = false }

-- One connection, with two bytes counted and a notification that is not yet handled.
abbrev busy : Center
busy = record {
  channels = (pos 7, open_channel) ∷ [];
  waiting = (pos 7, ReadyState.more) ∷ [];
  tasks = [];
}

busy-IsKeyed : IsKeyed busy.channels
busy-IsKeyed = add-IsKeyed (pos 7) open_channel [] refl no_channels-IsKeyed

-- An answer of the application is put behind what is to be sent; an unknown connection has none.
responds :
    ((notify_response_ready (pos 7) (1 ∷ []) busy).1 ≡ Effect.watch_out ∷ [])
    × (notify_response_ready (pos 8) (1 ∷ []) busy ≡ (busy, []))
unfolding notify_response_ready lookup notify_write_event
responds = (refl, refl)

arrival_lem_example :
    (c' : Channel) × (r' : Center) × (s' : List ℕ) × (on_event
        (list_socket false)
        growing
        9
        false
        false
        readable
        (pos 7)
        open_channel
        (3 ∷ 4 ∷ [])
        busy
      ≡ some (c', r', s'))
    × (bytes_for (pos 7) (handle_ready r').tasks ≡ 1 ∷ 1 ∷ 3 ∷ 4 ∷ [])
    × (s' ≡ [])
unfolding lookup bytes_for
arrival_lem_example =
    arrival_lem growing (list_socket-IsHonest false) 9 false false readable (pos 7) open_channel
      (3 ∷ 4 ∷ []) busy busy-IsKeyed refl refl refl refl (omega arith) (omega arith) (omega arith)
      (list_socket-Never false)

closing_loses_example :
    (c' : Channel) × (r' : Center) × (s' : List ℕ) × (on_event
        (list_socket true)
        growing
        9
        false
        false
        readable
        (pos 7)
        open_channel
        (3 ∷ 4 ∷ [])
        busy
      ≡ some (c', r', s'))
    × (bytes_for (pos 7) (handle_ready r').tasks ≡ [])
    × (s' ≡ [])
unfolding lookup bytes_for
closing_loses_example =
    closing_loses growing (list_socket-IsHonest true) 9 false false readable (pos 7) open_channel
      (3 ∷ 4 ∷ []) busy busy-IsKeyed refl refl refl refl (omega arith) (omega arith) (omega arith)
      (list_socket-Never true)

handle_hands_example :
    (c' : Channel) × (lookup (pos 7) (handle_ready busy).channels ≡ some c')
    × (bytes_for (pos 7) (handle_ready busy).tasks ≡ 1 ∷ 1 ∷ [])
    × (held c' ≡ [])
unfolding lookup bytes_for has_due
handle_hands_example = handle_hands (pos 7) open_channel busy busy-IsKeyed refl refl

handle_ready-counts_example :
    (times (pos 7) (handles (handle_ready busy).tasks) ≡ 1)
    × (count (lookup (pos 7) (handle_ready busy).waiting) ≡ 0)
unfolding lookup handles times count
handle_ready-counts_example = handle_ready-counts (pos 7) busy busy-IsKeyed (refl, tt)
