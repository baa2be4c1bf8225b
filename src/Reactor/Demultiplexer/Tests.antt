-- ===== src/Reactor/Demultiplexer/Tests.antt =====
-- Tests of Demultiplexer.h.
use server_dev_lib.Base.{◌≡◌, refl, some, [], ◌∷◌}
use server_dev_lib.Base.Int.{pos}
use server_dev_lib.Reactor.Demultiplexer.{
  Demultiplexer, Call, EventData, register_fd, register_default, modify_pointer, set_events,
  get_events, wait_for_shared, shutdown,
}

abbrev epoll : Demultiplexer
epoll = record { fd = pos 4; events = 1; calls = [] }

-- A descriptor is registered, and the epoll descriptor is closed.
traced :
    (shutdown (register_fd (pos 7) 5 (pos 0) epoll).1).calls
    ≡ Call.ctl_add (pos 4) (pos 7) 5 (EventData.by_fd (pos 7)) ∷ Call.close (pos 4) ∷ []
unfolding register_fd shutdown
traced = refl

-- The events of the demultiplexer, with a pointer in place of the descriptor.
traced_pointer :
    (modify_pointer
      (pos 7)
      (some 2)
      (pos 0)
      (register_default (pos 7) (pos 0) (set_events 9 epoll)).1).1.calls
    ≡ Call.ctl_add (pos 4) (pos 7) 9 (EventData.by_fd (pos 7))
      ∷ Call.ctl_mod (pos 4) (pos 7) 9 (EventData.by_pointer 2)
      ∷ []
unfolding modify_pointer register_default set_events
traced_pointer = refl

waits_shared :
    ((wait_for_shared 8 (pos 1) epoll).1.calls ≡ Call.wait (pos 4) 8 ∷ []) × (get_events epoll ≡ 1)
unfolding wait_for_shared get_events
waits_shared = (refl, refl)
