-- ===== src/Reactor/Dispatcher/Slaves.antt =====
-- The loop of a slave of Dispatcher.h: its own handlers and functors, and the static map of channels that
-- it shares with its master.
use server_dev_lib.Base.{
  ℕ, zero, suc, ◌≡◌, refl, ◌∙◌, true, false, Option, none, some, List, [], ◌∷◌, ◌++◌, ◌==◌, map,
  if◌then◌else◌, arith,
}
use server_dev_lib.Base.Map.{lookup, emplace, erase, lookup-emplace, lookup-erase}
use server_dev_lib.Base.Int.{ℤ, pos, is_negative, is_positive, eqb, eqb_iff, int_eq}
use server_dev_lib.Reactor.Dispatcher.{
  Dispatcher, Slave, Handler, Events, Call, emit, inactivate, is_unexpected, handle_new_connection,
  register_on_slave, get_channel,
}

unfoldable pub slave_at : ℕ → List Slave → Option Slave
slave_at i [] = none
slave_at zero (s ∷ ss) = some s
slave_at (suc i) (s ∷ ss) = slave_at i ss

unfoldable pub store_slave : ℕ → Slave → List Slave → List Slave
store_slave i s' [] = []
store_slave zero s' (s ∷ ss) = s' ∷ ss
store_slave (suc i) s' (s ∷ ss) = s ∷ store_slave i s' ss

-- The end of `HandleUnexpected` of a slave, by what `_allChannel.find(fd)` gives.
unfoldable pub slave_drop : ℕ → ℤ → Option ℕ → Slave → Dispatcher → Dispatcher
unfolding store_slave
slave_drop i fd none s d = record d {
  slaves = store_slave i (record s { slave_removed = s.slave_removed ++ (fd ∷ []) }) d.slaves;
}
slave_drop i fd (some c) s d = record (inactivate c d) {
  slaves = store_slave i s d.slaves;
  all_channel = erase fd d.all_channel;
}

-- `HandleUnexpected(fd, events)` of slave `i`, and its pending functors.
unfoldable pub slave_unexpected : ℕ → ℤ → Events → Slave → Dispatcher → Dispatcher
unfolding slave_drop
slave_unexpected i fd e s d =
    let ran : Slave = record s { slave_pending = [] } in
    let functors = map Call.run_functor s.slave_pending in
    if is_unexpected e
    then emit functors (
        slave_drop i fd (lookup fd d.all_channel)
          (record ran { slave_handlers = erase fd s.slave_handlers })
          (emit (Call.epoll_del fd ∷ Call.close_fd fd ∷ []) d))
    else emit functors (record d { slaves = store_slave i ran d.slaves })

-- The body of the loop of `Dispatch` on slave `i` for one event. Its master descriptor is 0: none is the
-- handler of descriptor 0, which is taken for an `AcceptHandler` that it is not.
unfoldable pub slave_event : ℕ → ℤ → Events → Dispatcher → Option Dispatcher
unfolding slave_at slave_unexpected
slave_event i fd e d = elim (slave_at i d.slaves) [
  | none ↦ some d
  | some s ↦ elim (lookup fd s.slave_handlers) [
    | none ↦ some d
    | some h ↦
        if eqb fd (pos 0)
        then none
        else some (slave_unexpected i fd e s (emit (Call.handle_task fd h e ∷ []) d))
  ]
]

first_slave :
    (d : Dispatcher) (s : Slave) (ss : List Slave)
    → d.slaves ≡ s ∷ ss
    → slave_at 0 d.slaves ≡ some s
unfolding slave_at
first_slave d s ss has = rw has refl

event_found :
    (i : ℕ) (fd : ℤ) (e : Events) (d : Dispatcher) (s : Slave) (h : Handler)
    → slave_at i d.slaves ≡ some s
    → lookup fd s.slave_handlers ≡ some h
    → eqb fd (pos 0) ≡ false
    → slave_event i fd e d
      ≡ some (slave_unexpected i fd e s (emit (Call.handle_task fd h e ∷ []) d))
unfolding slave_event
event_found i fd e d s h there found apart = rw (there, slave_event, found, apart) refl

-- A failing event of a connection whose handler the first slave has.
slave_failing :
    (fd : ℤ) (e : Events) (d : Dispatcher) (s : Slave) (ss : List Slave) (h : Handler) (c : ℕ)
    → d.slaves ≡ s ∷ ss
    → lookup fd s.slave_handlers ≡ some h
    → eqb fd (pos 0) ≡ false
    → lookup fd d.all_channel ≡ some c
    → is_unexpected e ≡ true
    → (d2 : Dispatcher) × (slave_event 0 fd e d ≡ some d2)
      × (get_channel fd d2 ≡ none)
      × (d2.is_active c ≡ false)
      × (d2.calls
          ≡ ((d.calls ++ (Call.handle_task fd h e ∷ []))
              ++ (Call.epoll_del fd ∷ Call.close_fd fd ∷ []))
            ++ map Call.run_functor s.slave_pending)
      × ((s2 : Slave) × (d2.slaves ≡ s2 ∷ ss) × (lookup fd s2.slave_handlers ≡ none))
unfolding slave_event get_channel store_slave
slave_failing fd e d s ss h c has found apart shared bad =
    let own : eqb fd fd ≡ true = (eqb_iff fd fd).1 refl in
    (
      slave_unexpected 0 fd e s (emit (Call.handle_task fd h e ∷ []) d),
      event_found 0 fd e d s h (first_slave d s ss has) found apart,
      rw (bad, slave_unexpected, shared, slave_drop)
          (lookup-erase fd fd d.all_channel ∙ rw own refl),
      rw (bad, slave_unexpected, shared, slave_drop) (ground arith),
      rw (bad, slave_unexpected, shared, slave_drop) refl,
      (
        record s { slave_pending = []; slave_handlers = erase fd s.slave_handlers },
        rw (bad, slave_unexpected, shared, slave_drop, has) refl,
        lookup-erase fd fd s.slave_handlers ∙ rw own refl,
      ),
    )

-- A new connection on a master whose slaves are enabled, with a positive descriptor that has no channel
-- and no handler on the first slave: the first slave, and only it, gets the handler, for a new active
-- channel that `GetChannel` gives, and the master gets none. When an event with an error or a hang-up
-- then comes to that slave, its handler is still handed to the pool, before the descriptor is closed
-- and the slave's functors run; the slave loses the handler, the map loses the channel, and the channel
-- is inactive.
pub slave_connection_lem :
    (fd : ℤ) (e : Events) (d : Dispatcher) (s : Slave) (ss : List Slave)
    → d.enable_slave ≡ true
    → d.slaves ≡ s ∷ ss
    → is_negative fd ≡ false
    → is_positive fd ≡ true
    → lookup fd s.slave_handlers ≡ none
    → get_channel fd d ≡ none
    → is_unexpected e ≡ true
    → let d1 = handle_new_connection fd d in
      let h = Handler.events d.next_channel in
      (get_channel fd d1 ≡ some d.next_channel)
      × (d1.is_active d.next_channel ≡ true)
      × (d1.handlers ≡ d.handlers)
      × (d1.slaves ≡ record s { slave_handlers = emplace fd h s.slave_handlers } ∷ ss)
      × ((d2 : Dispatcher) × (slave_event 0 fd e d1 ≡ some d2)
          × (get_channel fd d2 ≡ none)
          × (d2.is_active d.next_channel ≡ false)
          × (d2.calls
              ≡ ((d1.calls ++ (Call.handle_task fd h e ∷ []))
                  ++ (Call.epoll_del fd ∷ Call.close_fd fd ∷ []))
                ++ map Call.run_functor s.slave_pending)
          × ((s2 : Slave) × (d2.slaves ≡ s2 ∷ ss) × (lookup fd s2.slave_handlers ≡ none)))
unfolding handle_new_connection register_on_slave get_channel
slave_connection_lem fd e d s ss enabled has valid positive no_handler no_channel bad =
    let c = d.next_channel in
    let d1 = handle_new_connection fd d in
    let own : eqb fd fd ≡ true = (eqb_iff fd fd).1 refl in
    let s1 : Slave = record s { slave_handlers = emplace fd (Handler.events c) s.slave_handlers } in
    let given : d1.slaves ≡ s1 ∷ ss = rw (enabled, handle_new_connection, has, valid) refl in
    let found : lookup fd s1.slave_handlers ≡ some (Handler.events c) =
      lookup-emplace fd fd (Handler.events c) s.slave_handlers ∙ rw (own, no_handler) refl in
    let shared : lookup fd d1.all_channel ≡ some c =
      rw (enabled, handle_new_connection, has)
        (lookup-emplace fd fd c d.all_channel ∙ rw (own, no_channel) refl) in
    let apart : eqb fd (pos 0) ≡ false = ground arith in
    (
      shared,
      (let same : (c == c) ≡ true = ground arith in
          rw (enabled, handle_new_connection, has, same) positive),
      rw (enabled, handle_new_connection, has) refl,
      given,
      slave_failing fd e d1 s1 ss (Handler.events c) c given found apart shared bad,
    )
