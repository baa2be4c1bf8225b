-- ===== src/Reactor/Dispatcher.antt =====
-- include/server/reactor/Dispatcher.h, with the handlers of AcceptHandler.h and EventsHandler.h that it
-- calls: which descriptors have a handler and a channel, as connections come and go. One thread runs
-- each operation whole; the tasks that it hands to the pool and the system calls are a trace.
pub mod Connection
pub mod Run
pub mod Shutdown
pub mod Slaves
mod Tests
use server_dev_lib.Base.{
  ℕ, ◌+◌, ◌≡◌, Bool, true, false, not, ◌&&◌, ◌||◌, Option, none, some, List, [], ◌∷◌, ◌++◌, ◌==◌,
  if◌then◌else◌, map, length,
}
use server_dev_lib.Base.Map.{lookup, emplace, erase}
use server_dev_lib.Base.Int.{ℤ, pos, negsuc, is_negative, is_positive, eqb, int_eq}

-- The bits of an event mask that the reactor reads: EPOLLIN, EPOLLOUT, EPOLLERR, EPOLLHUP, EPOLLRDHUP.
pub record Events : Type 0 where
  pub input : Bool
  pub output : Bool
  pub err : Bool
  pub hup : Bool
  pub rdhup : Bool

-- `events & EPOLLERR || events & EPOLLHUP || events & EPOLLRDHUP`
abbrev pub is_unexpected : Events → Bool
is_unexpected e = e.err || (e.hup || e.rdhup)

-- A handler on the heap: an `AcceptHandler`, whose `_accepted` the dispatcher keeps, or an
-- `EventsHandler` with its channel object. Channel objects are numbers.
pub data Handler : Type 0 where
  accepts : Handler
  events : ℕ → Handler

-- What the dispatcher does outside its own state. The second to last are the task of a new slave, by
-- its index, and the `Shutdown` of the pool.
pub data Call : Type 0 where
  epoll_add epoll_del close_fd : ℤ → Call
  handle_task : ℤ → Handler → Events → Call
  run_functor : ℕ → Call
  stale_iterator : ℤ → Call
  dispatch_slave : ℕ → Call
  shutdown_pool close_epoll : Call

-- A slave dispatcher, whose master descriptor stays 0; what it registers with its own epoll descriptor is
-- not kept. `slave_removed` is its `_waitToRemovedChannel`.
pub record Slave : Type 0 where
  pub slave_handlers : List (ℤ × Handler)
  pub slave_pending : List ℕ
  pub slave_removed : List ℤ

-- `accepted` is the `_accepted` of the master's `AcceptHandler`; `is_active` has the `_active` of every
-- channel object made so far, `next_channel` the number of the next one. `all_channel` is the static
-- map that all dispatchers share.
pub record Dispatcher : Type 0 where
  pub stop : Bool
  pub enable_slave : Bool
  pub master_fd : ℤ
  pub accepted : ℤ
  pub slaves : List Slave
  pub handlers : List (ℤ × Handler)
  pub wait_to_removed : List ℤ
  pub all_channel : List (ℤ × ℕ)
  pub pending_fn : List ℕ
  pub is_active : ℕ → Bool
  pub next_channel : ℕ
  pub calls : List Call

-- `Dispatcher()`
unfoldable pub init : Dispatcher
init = record {
  stop = false;
  enable_slave = false;
  master_fd = pos 0;
  accepted = negsuc 0;
  slaves = [];
  handlers = [];
  wait_to_removed = [];
  all_channel = [];
  pending_fn = [];
  is_active = λ c. false;
  next_channel = 0;
  calls = [];
}

abbrev pub emit : List Call → Dispatcher → Dispatcher
emit cs d = record d { calls = d.calls ++ cs }

-- `channel->Inactive()`
abbrev pub inactivate : ℕ → Dispatcher → Dispatcher
inactivate c d = record d { is_active = λ k. if k == c then false else d.is_active k }

is_none {ℓ} : {A : Type ℓ} → Option A → Bool
is_none none = true
is_none (some a) = false

-- `RegisterHandler(fd, handler)`
unfoldable pub register_handler : ℤ → Handler → Dispatcher → Bool × Dispatcher
unfolding is_none
register_handler fd h d = if d.stop || is_negative fd then (false, d) else (
  is_none (lookup fd d.handlers),
  emit (Call.epoll_add fd ∷ []) (record d { handlers = emplace fd h d.handlers }),
)

-- `EnableSlave(b)`
unfoldable pub set_enable_slave : Bool → Dispatcher → Dispatcher
set_enable_slave b d = if d.stop then d else record d { enable_slave = b }

new_slaves : ℕ → List Slave
new_slaves ℕ.zero = []
new_slaves (ℕ.suc n) =
    record { slave_handlers = []; slave_pending = []; slave_removed = [] } ∷ new_slaves n

slave_tasks : ℕ → ℕ → List Call
slave_tasks ℕ.zero i = []
slave_tasks (ℕ.suc n) i = Call.dispatch_slave i ∷ slave_tasks n (i + 1)

-- `AddSlaveDispatcher(n)`
unfoldable pub add_slave_dispatcher : ℕ → Dispatcher → Dispatcher
unfolding new_slaves slave_tasks
add_slave_dispatcher n d =
    if d.stop || not d.enable_slave
    then d
    else emit (slave_tasks n (length d.slaves)) (record d { slaves = d.slaves ++ new_slaves n })

-- `SetMasterFD(fd)`
unfoldable pub set_master_fd : ℤ → Dispatcher → Dispatcher
unfolding register_handler
set_master_fd fd d =
    if is_negative fd
    then d
    else (let (is_new, d') = register_handler fd Handler.accepts (record d { master_fd = fd }) in
        record d' { accepted = if is_new then negsuc 0 else d'.accepted })

-- `GetChannel(fd)`
unfoldable pub get_channel : ℤ → Dispatcher → Option ℕ
get_channel fd d = lookup fd d.all_channel

-- `slave->RegisterHandler` at `_slaves.at(DispatchToSlave())`: the index is `0 % count`, so 0.
unfoldable pub register_on_slave : ℤ → Handler → List Slave → List Slave
register_on_slave fd h [] = []
register_on_slave fd h (s ∷ ss) =
    (if is_negative fd then s else record s { slave_handlers = emplace fd h s.slave_handlers }) ∷ ss

has_none {ℓ} : {A : Type ℓ} → List A → Bool
has_none [] = true
has_none (x ∷ xs) = false

-- `HandleNewConnection(fd)`
unfoldable pub handle_new_connection : ℤ → Dispatcher → Dispatcher
unfolding register_handler register_on_slave has_none
handle_new_connection fd d =
    let c = d.next_channel in
    let d' : Dispatcher = record d {
      next_channel = c + 1;
      is_active = λ k. if k == c then is_positive fd else d.is_active k;
      all_channel = emplace fd c d.all_channel;
    } in
    if not d.enable_slave || has_none d.slaves
    then (register_handler fd (Handler.events c) d').1
    else record d' { slaves = register_on_slave fd (Handler.events c) d.slaves }

-- The end of `HandleUnexpected`, by what `_allChannel.find(fd)` gives.
unfoldable pub drop_channel : ℤ → Option ℕ → Dispatcher → Dispatcher
drop_channel fd none d = record d { wait_to_removed = d.wait_to_removed ++ (fd ∷ []) }
drop_channel fd (some c) d = record (inactivate c d) { all_channel = erase fd d.all_channel }

-- `HandleUnexpected(fd, events)`
unfoldable pub handle_unexpected : ℤ → Events → Dispatcher → Dispatcher
unfolding drop_channel
handle_unexpected fd e d =
    if is_unexpected e
    then drop_channel fd (lookup fd d.all_channel) (
        emit (Call.epoll_del fd ∷ Call.close_fd fd ∷ [])
          (record d { handlers = erase fd d.handlers }))
    else d

-- `ExtractExistedChannel()` and `RestoreAllChannel(channels)`
unfoldable pub extract_existed_channel : Dispatcher → List (ℤ × ℕ) × Dispatcher
extract_existed_channel d = (d.all_channel, record d { all_channel = [] })

unfoldable pub erase_all : List ℤ → List (ℤ × ℕ) → List (ℤ × ℕ)
erase_all [] m = m
erase_all (fd ∷ fds) m = erase_all fds (erase fd m)

unfoldable pub insert_all : List (ℤ × ℕ) → List (ℤ × ℕ) → List (ℤ × ℕ)
insert_all [] m = m
insert_all ((fd, c) ∷ cs) m = insert_all cs (emplace fd c m)

unfoldable pub restore_all_channel : List (ℤ × ℕ) → Dispatcher → Dispatcher
unfolding erase_all insert_all
restore_all_channel channels d = record d {
  wait_to_removed = [];
  all_channel = insert_all (erase_all d.wait_to_removed channels) d.all_channel;
}

-- `RemoveHandler(fd)`: how many handlers were erased, or -1. The channel's flag is written through the
-- iterator that `erase` has just made invalid.
unfoldable pub remove_handler : ℤ → Dispatcher → ℤ × Dispatcher
unfolding is_none
remove_handler fd d = if d.stop || is_negative fd then (negsuc 0, d) else (
  pos (if is_none (lookup fd d.handlers) then 0 else 1),
  elim (lookup fd d.all_channel) [
    | none ↦ record d { handlers = erase fd d.handlers }
    | some c ↦
        emit (Call.stale_iterator fd ∷ [])
          (record d { all_channel = erase fd d.all_channel; handlers = erase fd d.handlers })
  ],
)

-- `AddPendingFunctor(fn)`: `none` is the division by zero, or the `at` out of range, without slaves.
unfoldable pub add_pending_functor : ℕ → Dispatcher → Option Dispatcher
add_pending_functor fn d =
    if not d.enable_slave
    then some (record d { pending_fn = d.pending_fn ++ (fn ∷ []) })
    else elim d.slaves [
      | [] ↦ none
      | s ∷ ss ↦
          some
            (record d { slaves = record s { slave_pending = s.slave_pending ++ (fn ∷ []) } ∷ ss })
    ]

-- `AcceptHandler::HandleEvent`, where `::accept` returns `result`; that the descriptor is then set not to
-- block is not kept.
unfoldable pub accept_event : Events → ℤ → Dispatcher → Dispatcher
accept_event e result d = if e.input then record d { accepted = result } else d

-- `for ( auto & fn : pendingFn ) fn();`
unfoldable pub run_pending : Dispatcher → Dispatcher
run_pending d = emit (map Call.run_functor d.pending_fn) (record d { pending_fn = [] })

-- The body of the loop of `Dispatch` for one event, where `::accept` returns `result`. The task of the
-- handler is put into the pool here and runs later: `Run` has the end of a task that makes its channel
-- inactive.
unfoldable pub dispatch_event : ℤ → Events → ℤ → Dispatcher → Dispatcher
unfolding accept_event run_pending
dispatch_event fd e result d = elim (lookup fd d.handlers) [
  | none ↦ d
  | some h ↦ run_pending (
      handle_unexpected fd e (
        if eqb fd d.master_fd
        then (let d' = accept_event e result d in handle_new_connection d'.accepted d')
        else emit (Call.handle_task fd h e ∷ []) d))
]

close_all : List (ℤ × Handler) → List Call
close_all [] = []
close_all ((fd, h) ∷ m) = Call.close_fd fd ∷ close_all m

close_slaves : List Slave → List Call
close_slaves [] = []
close_slaves (s ∷ ss) = close_all s.slave_handlers ++ (Call.close_epoll ∷ close_slaves ss)

inactivate_all : List (ℤ × ℕ) → (ℕ → Bool) → ℕ → Bool
inactivate_all [] f k = f k
inactivate_all ((fd, c) ∷ m) f k = if k == c then false else inactivate_all m f k

-- `Shutdown()`
unfoldable pub shutdown : Dispatcher → Dispatcher
unfolding close_all close_slaves inactivate_all
shutdown d =
    if d.stop
    then d
    else (let by_master = not (eqb d.master_fd (pos 0)) in
        record d {
          stop = true;
          handlers = [];
          slaves = if d.enable_slave then [] else d.slaves;
          all_channel = if by_master then [] else d.all_channel;
          is_active = if by_master then inactivate_all d.all_channel d.is_active else d.is_active;
          calls =
              d.calls
              ++ (close_all d.handlers
                  ++ ((if d.enable_slave then close_slaves d.slaves else [])
                      ++ ((if by_master then Call.shutdown_pool ∷ [] else [])
                          ++ (Call.close_epoll ∷ []))));
        })
