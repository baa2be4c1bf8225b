-- ===== src/Reactor/Dispatcher/Run.antt =====
-- The loop `Dispatch` of Dispatcher.h, and the calls of other threads between two events, on a
-- dispatcher without slaves whose map of channels is not taken out.
pub mod Inv
pub mod Agree
use server_dev_lib.Base.{
  ℕ, ◌+◌, ◌<◌, ◌≡◌, ◌≢◌, refl, sym, ap, ◌∙◌, Bool, true, false, ◌||◌, Option, none, some, List, [],
  ◌∷◌, ◌==◌, if◌then◌else◌, arith, Option-cases, Bool-cases, inl, inr,
}
use server_dev_lib.Base.Map.{lookup, lookup-emplace, lookup-erase, emplace, erase, or_else}
use server_dev_lib.Base.Int.{ℤ, pos, is_negative, is_positive, eqb, eqb_iff, int_eq}
use server_dev_lib.Reactor.Dispatcher.{
  Dispatcher, Handler, Events, init, register_handler, set_master_fd, handle_new_connection,
  handle_unexpected, drop_channel, is_unexpected, remove_handler, add_pending_functor, accept_event,
  run_pending, dispatch_event, shutdown, get_channel, inactivate, Call,
}

-- An element of `_events`, with what `::accept` returns if it is the master's.
pub record Ready : Type 0 where
  pub fd : ℤ
  pub events : Events
  pub result : ℤ

-- `std::for_each` over the events of one wake-up
unfoldable pub dispatch_batch : List Ready → Dispatcher → Dispatcher
dispatch_batch [] d = d
dispatch_batch (r ∷ rs) d = dispatch_batch rs (dispatch_event r.fd r.events r.result d)

-- `Dispatch()`, over what the calls of `WaitForEvents` give: without events the loop goes round.
unfoldable pub dispatch : List (List Ready) → Dispatcher → Dispatcher
unfolding dispatch_batch
dispatch [] d = d
dispatch (batch ∷ batches) d =
    let rest = dispatch batches (dispatch_batch batch d) in if d.stop then d else rest

-- What happens to a dispatcher: the body of the loop for one event, the calls of other threads, and the
-- end of a task whose `Channel::Read` got 0 and has called `Inactive` of its channel.
pub data Op : Type 0 where
  event : ℤ → Events → ℤ → Op
  set_master remove : ℤ → Op
  shut : Op
  ended : ℕ → Op

unfoldable pub perform : Op → Dispatcher → Dispatcher
perform (Op.event fd e result) d = dispatch_event fd e result d
perform (Op.set_master fd) d = set_master_fd fd d
perform (Op.remove fd) d = (remove_handler fd d).1
perform Op.shut d = shutdown d
perform (Op.ended c) d = inactivate c d

-- `SetMasterFD` is called with a descriptor that has no handler.
abbrev Allowed : Op → Dispatcher → Type 0
Allowed (Op.set_master fd) d = lookup fd d.handlers ≡ none
Allowed _ d = Unit {0}

pub data Reach : Dispatcher → Type 0 where
  start : Reach init
  next : {d : Dispatcher} (op : Op) → Reach d → Allowed op d → Reach (perform op d)
