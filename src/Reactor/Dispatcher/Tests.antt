-- ===== src/Reactor/Dispatcher/Tests.antt =====
-- Tests of Dispatcher.h, and its theorems at inputs that meet their hypotheses.
use server_dev_lib.Base.{◌≡◌, refl, true, false, none, some, List, [], ◌∷◌, ◌==◌}
use server_dev_lib.Base.Map.{lookup, emplace}
use server_dev_lib.Base.Int.{pos, eqb, int_eq}
use server_dev_lib.Reactor.Dispatcher.{
  Call, Dispatcher, Slave, Handler, Events, handle_new_connection, get_channel, handle_unexpected,
  extract_existed_channel, restore_all_channel, dispatch_event, init, set_master_fd,
  register_handler,
}
use server_dev_lib.Reactor.Dispatcher.Connection.{comes_and_goes, restore_drops_closed}
use server_dev_lib.Reactor.Dispatcher.Slaves.{slave_event, slave_connection_lem}
use server_dev_lib.Reactor.Dispatcher.Run.{Ready, dispatch, Op, perform, Reach}
use server_dev_lib.Reactor.Dispatcher.Run.Agree.{connections_agree}

abbrev readable : Events
readable = record { input = true; output = false; err = false; hup = false; rdhup = false }

abbrev hung_up : Events
hung_up = record readable { hup = true }

-- Master 3, with a connection on 5.
abbrev serving : Dispatcher
serving = record {
  stop = false;
  enable_slave = false;
  master_fd = pos 3;
  accepted = pos 5;
  slaves = [];
  handlers = (pos 5, Handler.events 0) ∷ (pos 3, Handler.accepts) ∷ [];
  wait_to_removed = [];
  all_channel = (pos 5, 0) ∷ [];
  pending_fn = [];
  is_active = λ c. c == 0;
  next_channel = 1;
  calls = [];
}

comes_and_goes_example :
    let d1 = dispatch_event (pos 3) readable (pos 6) serving in
    let d2 = dispatch_event (pos 6) hung_up (pos 0) d1 in
    (lookup (pos 6) d1.handlers ≡ some (Handler.events 1))
    × (get_channel (pos 6) d1 ≡ some 1)
    × (lookup (pos 6) d2.handlers ≡ none)
    × (get_channel (pos 6) d2 ≡ none)
    × (d2.is_active 1 ≡ false)
    × (d2.wait_to_removed ≡ [])
unfolding get_channel lookup
comes_and_goes_example =
    comes_and_goes (pos 6) (pos 6) (pos 0) readable hung_up serving Handler.accepts refl refl refl
      refl refl refl refl refl refl

restore_drops_closed_example :
    let (taken, d1) = extract_existed_channel serving in
    let d2 = restore_all_channel taken (handle_unexpected (pos 5) hung_up d1) in
    (get_channel (pos 5) d2 ≡ none) × (d2.wait_to_removed ≡ [])
restore_drops_closed_example = restore_drops_closed (pos 5) (pos 5) hung_up serving refl refl

-- Master 3, which accepts 5; the loop then accepts 6.
abbrev accepting : Dispatcher
accepting = perform (Op.event (pos 3) readable (pos 5)) (perform (Op.set_master (pos 3)) init)

abbrev accepts_another : List (List Ready)
accepts_another = (record { fd = pos 3; events = readable; result = pos 6 } ∷ []) ∷ []

accepting-Reach : Reach accepting
unfolding init lookup
accepting-Reach =
    Reach.next (Op.event (pos 3) readable (pos 5))
      (Reach.next (Op.set_master (pos 3)) Reach.start refl) tt

connections_agree_example :
    let d' = dispatch accepts_another accepting in
    (get_channel (pos 5) d' ≡ some 0)
    × (pos 5 ≡ pos 5)
    × (d'.is_active 0 ≡ d'.is_active 0)
    × (eqb (pos 5) d'.master_fd ≡ false)
unfolding dispatch perform dispatch_event set_master_fd handle_new_connection register_handler
    handle_unexpected init lookup emplace get_channel
connections_agree_example =
    connections_agree accepting accepts_another (pos 5) (pos 5) 0 accepting-Reach refl refl

-- Master 3 with two slaves.
abbrev idle_slave : Slave
idle_slave = record { slave_handlers = []; slave_pending = []; slave_removed = [] }

abbrev with_slaves : Dispatcher
with_slaves = record serving { enable_slave = true; slaves = idle_slave ∷ idle_slave ∷ [] }

slave_connection_lem_example :
    let d1 = handle_new_connection (pos 6) with_slaves in
    (get_channel (pos 6) d1 ≡ some 1)
    × (d1.is_active 1 ≡ true)
    × (d1.handlers ≡ serving.handlers)
    × (d1.slaves
        ≡ record idle_slave { slave_handlers = (pos 6, Handler.events 1) ∷ [] } ∷ idle_slave ∷ [])
    × ((d2 : Dispatcher) × (slave_event 0 (pos 6) hung_up d1 ≡ some d2)
        × (get_channel (pos 6) d2 ≡ none)
        × (d2.is_active 1 ≡ false)
        × (d2.calls
            ≡ Call.handle_task (pos 6) (Handler.events 1) hung_up
              ∷ Call.epoll_del (pos 6)
              ∷ Call.close_fd (pos 6)
              ∷ [])
        × ((s2 : Slave) × (d2.slaves ≡ s2 ∷ idle_slave ∷ [])
            × (lookup (pos 6) s2.slave_handlers ≡ none)))
unfolding get_channel lookup emplace handle_new_connection
slave_connection_lem_example =
    slave_connection_lem (pos 6) hung_up with_slaves idle_slave (idle_slave ∷ []) refl refl refl
      refl refl refl refl
