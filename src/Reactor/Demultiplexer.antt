-- ===== src/Reactor/Demultiplexer.antt =====
-- include/server/reactor/Demultiplexer.h: the epoll descriptor. What each system call returns is an
-- argument; the calls that are made are a trace.
mod Tests
use server_dev_lib.Base.{
  ℕ, ◌≡◌, refl, Bool, true, false, not, ◌||◌, Option, none, some, List, [], ◌∷◌, ◌++◌, ◌==◌,
  if◌then◌else◌, arith, Bool-cases, inl, inr, append_assoc,
}
use server_dev_lib.Base.Int.{ℤ, pos, negsuc, is_negative, eqb}

-- `event.data` of an event that is registered: the descriptor, or a pointer, known by a number.
pub data EventData : Type 0 where
  by_fd : ℤ → EventData
  by_pointer : ℕ → EventData

-- `epoll_ctl` with EPOLL_CTL_ADD, MOD or DEL, with the epoll descriptor first; `epoll_wait`; `close`.
pub data Call : Type 0 where
  ctl_add ctl_mod : ℤ → ℤ → ℕ → EventData → Call
  ctl_del : ℤ → ℤ → Call
  wait : ℤ → ℕ → Call
  close : ℤ → Call

pub record Demultiplexer : Type 0 where
  pub fd : ℤ
  pub events : ℕ
  pub calls : List Call

-- `Demultiplexer()`, where `epoll_create` returns `result` and `mask` is DEFAULT_EVENTS.
unfoldable pub create : ℕ → ℤ → Demultiplexer
create mask result = record { fd = result; events = mask; calls = [] }

-- `Valid()`: the descriptor as a truth value.
unfoldable pub is_valid : Demultiplexer → Bool
is_valid d = not (eqb d.fd (pos 0))

abbrev call : Call → Demultiplexer → Demultiplexer
call c d = record d { calls = d.calls ++ (c ∷ []) }

-- `GetEvents()` and `SetEvents(events)`
unfoldable pub get_events : Demultiplexer → ℕ
get_events d = d.events

unfoldable pub set_events : ℕ → Demultiplexer → Demultiplexer
set_events events d = record d { events = events }

-- `if ( data != nullptr ) event.data.ptr = data; else event.data.fd = fd;`
abbrev event_data : ℤ → Option ℕ → EventData
event_data fd none = EventData.by_fd fd
event_data fd (some p) = EventData.by_pointer p

-- `RegisterFd(fd, events, data)` and `ModifyEvent(fd, events, data)`, with none for a null pointer, where
-- `epoll_ctl` returns `result`
unfoldable pub register_with : ℤ → ℕ → Option ℕ → ℤ → Demultiplexer → ℤ × Demultiplexer
unfolding is_valid
register_with fd events p result d =
    if not (is_valid d) || is_negative fd
    then (negsuc 0, d)
    else (result, call (Call.ctl_add d.fd fd events (event_data fd p)) d)

unfoldable pub modify_with : ℤ → ℕ → Option ℕ → ℤ → Demultiplexer → ℤ × Demultiplexer
unfolding is_valid
modify_with fd events p result d =
    if not (is_valid d) || is_negative fd
    then (negsuc 0, d)
    else (result, call (Call.ctl_mod d.fd fd events (event_data fd p)) d)

-- `RegisterFd(fd, events)` and `RegisterFd(fd)`
unfoldable pub register_fd : ℤ → ℕ → ℤ → Demultiplexer → ℤ × Demultiplexer
unfolding is_valid register_with
register_fd fd events result d =
    if not (is_valid d) || is_negative fd
    then (negsuc 0, d)
    else register_with fd events none result d

unfoldable pub register_default : ℤ → ℤ → Demultiplexer → ℤ × Demultiplexer
unfolding is_valid register_with
register_default fd result d =
    if is_negative fd || not (is_valid d)
    then (negsuc 0, d)
    else register_with fd d.events none result d

-- `ModifyEvent(fd, events)` and `ModifyEvent(fd, data)`
unfoldable pub modify_event : ℤ → ℕ → ℤ → Demultiplexer → ℤ × Demultiplexer
unfolding is_valid modify_with
modify_event fd events result d =
    if not (is_valid d) || is_negative fd
    then (negsuc 0, d)
    else modify_with fd events none result d

unfoldable pub modify_pointer : ℤ → Option ℕ → ℤ → Demultiplexer → ℤ × Demultiplexer
unfolding is_valid modify_with
modify_pointer fd p result d =
    if not (is_valid d) || is_negative fd then (negsuc 0, d) else modify_with fd d.events p result d

-- `RemoveFd(fd)`
unfoldable pub remove_fd : ℤ → ℤ → Demultiplexer → ℤ × Demultiplexer
unfolding is_valid
remove_fd fd result d =
    if not (is_valid d) || is_negative fd
    then (negsuc 0, d)
    else (result, call (Call.ctl_del d.fd fd) d)

-- `WaitForEvents(events)`, for a vector of `size` events, where `epoll_wait` returns `result`
unfoldable pub wait_for_events : ℕ → ℤ → Demultiplexer → ℤ × Demultiplexer
unfolding is_valid
wait_for_events size result d =
    if not (is_valid d)
    then (d.fd, d)
    else (if size == 0 then (negsuc 0, d) else (result, call (Call.wait d.fd size) d))

-- `WaitForEvents(ptr)`
unfoldable pub wait_for_shared : ℕ → ℤ → Demultiplexer → ℤ × Demultiplexer
unfolding is_valid wait_for_events
wait_for_shared size result d =
    if not (is_valid d) then (d.fd, d) else wait_for_events size result d

-- `Shutdown()`, which the destructor calls too
unfoldable pub shutdown : Demultiplexer → Demultiplexer
unfolding is_valid
shutdown d = if not (is_valid d) then d else call (Call.close d.fd) d

-- A demultiplexer whose `epoll_create` failed counts as valid, and hands every descriptor that is not
-- negative to `epoll_ctl` on the negative one.
failed_create_is_used :
    (mask n events : ℕ) (fd result : ℤ)
    → is_negative fd ≡ false
    → let d = create mask (negsuc n) in
      (is_valid d ≡ true)
      × (register_fd fd events result d ≡ (
        result,
        record d { calls = Call.ctl_add (negsuc n) fd events (EventData.by_fd fd) ∷ [] },
      ))
unfolding create register_fd
failed_create_is_used mask n events fd result ok_fd = (refl, rw ok_fd refl)
