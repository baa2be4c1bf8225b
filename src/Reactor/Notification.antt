-- ===== src/Reactor/Notification.antt =====
-- include/server/reactor/NotificationCenter.h: which descriptors have received data that the
-- application has not handled. Each function is one call, run alone; `Barrier` has the interleavings.
pub mod Pending
pub mod Barrier
mod Tests
use server_dev_lib.Base.{Bool, true, false, Option, none, some, List, [], ◌∷◌, if◌then◌else◌}
use server_dev_lib.Base.Map.{lookup, emplace, erase, update}
use server_dev_lib.Base.Int.{ℤ, int_eq}

-- `enum state`
pub data ReadyState : Type 0 where
  one more more_plus : ReadyState

-- `_waitToHandleFD`
abbrev pub Waiting : Type 0
Waiting = List (ℤ × ReadyState)

-- The two tests of `NotifyDataReady` inside its critical section.
unfoldable pub raise : ReadyState → ReadyState
raise ReadyState.more = ReadyState.more_plus
raise ReadyState.one = ReadyState.more
raise ReadyState.more_plus = ReadyState.more_plus

-- The two tests of `HandleReadyData` inside its critical section.
unfoldable pub lower : ReadyState → ReadyState
lower ReadyState.more_plus = ReadyState.more
lower ReadyState.more = ReadyState.one
lower ReadyState.one = ReadyState.one

-- `NotifyDataReady(fd)`
unfoldable pub notify_data_ready : ℤ → Waiting → Waiting
notify_data_ready fd m = elim (lookup fd m) [
  | none ↦ emplace fd ReadyState.more m
  | some s ↦ update fd raise m
]

-- `NotifyClose(fd)`
unfoldable pub notify_close : ℤ → Waiting → Waiting
notify_close fd m = elim (lookup fd m) [ none ↦ m | some s ↦ erase fd m ]

-- `channel == nullptr || it.second == ONE`, where `open` says whether `GetChannel` finds a channel.
unfoldable pub is_skipped : (ℤ → Bool) → ℤ × ReadyState → Bool
is_skipped has_channel (fd, ReadyState.one) = true
is_skipped has_channel (fd, s) = if has_channel fd then false else true

-- The loop of `HandleReadyData` over the copy of the map: the descriptors whose data is handed to
-- the thread pool, in order, and the map after the updates.
unfoldable pub handle_entries : (ℤ → Bool) → Waiting → Waiting → List ℤ × Waiting
unfolding is_skipped
handle_entries has_channel [] m = ([], m)
handle_entries has_channel ((fd, s) ∷ copy) m = elim (is_skipped has_channel (fd, s)) [
  | true ↦ handle_entries has_channel copy m
  | false ↦
      let (tasks, m') = handle_entries has_channel copy (update fd lower m) in (fd ∷ tasks, m')
]

-- `HandleReadyData`
unfoldable pub handle_ready_data : (ℤ → Bool) → Waiting → List ℤ × Waiting
handle_ready_data has_channel m = handle_entries has_channel m m
