-- ===== src/Reactor/Dispatcher/Connection.antt =====
-- Connections of Dispatcher.h: how they are registered, dropped, and kept while the map of channels is
-- taken out.
use server_dev_lib.Base.{
  ℕ, ◌≡◌, refl, sym, ap, ◌∙◌, Option, Bool-cases, inl, inr, true, false, none, some, List, [], ◌∷◌,
  if◌then◌else◌, arith,
}
use server_dev_lib.Base.Map.{lookup, emplace, erase, lookup-emplace, lookup-erase}
use server_dev_lib.Base.Int.{ℤ, negsuc, is_negative, is_positive, eqb, eqb_iff, int_eq}
use server_dev_lib.Reactor.Dispatcher.{
  Dispatcher, Slave, Handler, Events, is_unexpected, handle_new_connection, get_channel,
  handle_unexpected, drop_channel, extract_existed_channel, erase_all, insert_all,
  restore_all_channel, dispatch_event, register_handler, run_pending, accept_event, emit, Call,
}

-- A new connection on a running dispatcher without slaves, whose descriptor is not negative and has no
-- handler and no channel: it gets both, for one new channel object that is active if the descriptor is
-- positive; every other descriptor keeps what it has.
new_connection_lem :
    (fd k : ℤ) (d : Dispatcher)
    → d.stop ≡ false
    → d.enable_slave ≡ false
    → is_negative fd ≡ false
    → lookup fd d.handlers ≡ none
    → get_channel fd d ≡ none
    → let d' = handle_new_connection fd d in
      let c = d.next_channel in
      (lookup k d'.handlers ≡ (if eqb fd k then some (Handler.events c) else lookup k d.handlers))
      × (get_channel k d' ≡ (if eqb fd k then some c else get_channel k d))
      × (d'.is_active c ≡ is_positive fd)
unfolding handle_new_connection get_channel
new_connection_lem fd k d going alone valid no_handler no_channel = ground (
  arith,
  lookup-emplace fd k (Handler.events d.next_channel) d.handlers,
  lookup-emplace fd k d.next_channel d.all_channel,
)

-- A new connection whose descriptor still has a channel in the map but no handler, on a running
-- dispatcher without slaves: the handler serves a new channel object, and `GetChannel` goes on giving
-- the old one.
new_connection_stale :
    (fd : ℤ) (d : Dispatcher) (old : ℕ)
    → d.stop ≡ false
    → d.enable_slave ≡ false
    → is_negative fd ≡ false
    → lookup fd d.handlers ≡ none
    → get_channel fd d ≡ some old
    → let d' = handle_new_connection fd d in
      (lookup fd d'.handlers ≡ some (Handler.events d.next_channel))
      × (get_channel fd d' ≡ some old)
unfolding handle_new_connection get_channel
new_connection_stale fd d old going alone valid no_handler stale = ground (
  arith,
  eqb_iff fd fd,
  lookup-emplace fd fd (Handler.events d.next_channel) d.handlers,
  lookup-emplace fd fd d.next_channel d.all_channel,
)

-- An event with EPOLLERR, EPOLLHUP or EPOLLRDHUP on a descriptor with a channel takes its handler and
-- channel out of the maps, makes the channel inactive, notes nothing for later, and leaves the handler
-- and the channel of every other descriptor.
unexpected_drops :
    (fd k : ℤ) (e : Events) (d : Dispatcher) (c : ℕ)
    → is_unexpected e ≡ true
    → get_channel fd d ≡ some c
    → let d' = handle_unexpected fd e d in
      (lookup k d'.handlers ≡ (if eqb fd k then none else lookup k d.handlers))
      × (get_channel k d' ≡ (if eqb fd k then none else get_channel k d))
      × (d'.is_active c ≡ false)
      × (d'.wait_to_removed ≡ d.wait_to_removed)
unfolding handle_unexpected get_channel
unexpected_drops fd k e d c bad there =
    rw (bad, there, drop_channel)
      (lookup-erase fd k d.handlers, lookup-erase fd k d.all_channel, ground arith, refl)

-- An event of the master with EPOLLIN, where `::accept` returns `fd`.
accepted_is :
    (fd : ℤ) (e : Events) (d : Dispatcher) (h : Handler)
    → lookup d.master_fd d.handlers ≡ some h
    → e.input ≡ true
    → is_unexpected e ≡ false
    → dispatch_event d.master_fd e fd d
      ≡ run_pending (handle_new_connection fd (record d { accepted = fd }))
unfolding dispatch_event handle_unexpected accept_event
accepted_is fd e d h has readable good =
    let own : eqb d.master_fd d.master_fd ≡ true = (eqb_iff d.master_fd d.master_fd).1 refl in
    rw (has, dispatch_event, own, readable, good) refl

-- An event of a connection.
failing_is :
    (fd result : ℤ) (e : Events) (d : Dispatcher) (h : Handler)
    → lookup fd d.handlers ≡ some h
    → eqb fd d.master_fd ≡ false
    → dispatch_event fd e result d
      ≡ run_pending (handle_unexpected fd e (emit (Call.handle_task fd h e ∷ []) d))
unfolding dispatch_event
failing_is fd result e d h has other = rw (has, dispatch_event, other) refl

connection-others :
    (fd : ℤ) (d : Dispatcher)
    → ((handle_new_connection fd d).master_fd ≡ d.master_fd)
      × ((handle_new_connection fd d).wait_to_removed ≡ d.wait_to_removed)
unfolding handle_new_connection register_handler
connection-others fd d = ground arith

served_apart :
    (fd j : ℤ) (m : List (ℤ × Handler)) (h : Handler)
    → lookup fd m ≡ none
    → lookup j m ≡ some h
    → eqb fd j ≡ false
served_apart fd j m h absent there = elim (Bool-cases (eqb fd j)) [
  | inl same ↦ absurd (cc (absent, there, (eqb_iff fd j).0 same))
  | inr other ↦ other
]

-- An entry that is put in and taken out.
put_back :
    {A : Type 0} (fd k : ℤ) (m : List (ℤ × A)) (a : A) {o : Option A}
    → lookup fd m ≡ none
    → o ≡ (if eqb fd k then some a else lookup k m)
    → (if eqb fd k then none else o) ≡ lookup k m
put_back fd k m a absent put = elim (Bool-cases (eqb fd k)) [
  | inl same ↦ rw same (sym absent ∙ ap (λ i. lookup i m) ((eqb_iff fd k).0 same))
  | inr other ↦ rw other (put ∙ rw other refl)
]

-- On a running dispatcher without slaves, `::accept` gives the master a descriptor that has no handler
-- and no channel, and then the connection reports EPOLLERR, EPOLLHUP or EPOLLRDHUP: in between, it has
-- a handler for a new channel object that `GetChannel` gives; behind it, every descriptor has the
-- handler and the channel that it had in front, the channel object is not active, and nothing more is
-- noted for `RestoreAllChannel`.
pub comes_and_goes :
    (fd k result : ℤ) (e bad : Events) (d : Dispatcher) (h : Handler)
    → d.stop ≡ false
    → d.enable_slave ≡ false
    → lookup d.master_fd d.handlers ≡ some h
    → e.input ≡ true
    → is_unexpected e ≡ false
    → is_unexpected bad ≡ true
    → is_negative fd ≡ false
    → lookup fd d.handlers ≡ none
    → get_channel fd d ≡ none
    → let d1 = dispatch_event d.master_fd e fd d in
      let d2 = dispatch_event fd bad result d1 in
      (lookup fd d1.handlers ≡ some (Handler.events d.next_channel))
      × (get_channel fd d1 ≡ some d.next_channel)
      × (lookup k d2.handlers ≡ lookup k d.handlers)
      × (get_channel k d2 ≡ get_channel k d)
      × (d2.is_active d.next_channel ≡ false)
      × (d2.wait_to_removed ≡ d.wait_to_removed)
unfolding run_pending get_channel
comes_and_goes fd k result e bad d h going alone has readable good fails valid no_handler
      no_channel =
    let c = d.next_channel in
    let n = handle_new_connection fd (record d { accepted = fd }) in
    let x = run_pending n in
    let own : eqb fd fd ≡ true = (eqb_iff fd fd).1 refl in
    let (served, given, active) =
      new_connection_lem fd fd (record d { accepted = fd }) going alone valid no_handler
        no_channel in
    let (others, rest, active_k) =
      new_connection_lem fd k (record d { accepted = fd }) going alone valid no_handler
        no_channel in
    let handler : lookup fd x.handlers ≡ some (Handler.events c) = served ∙ rw own refl in
    let channel : get_channel fd x ≡ some c = given ∙ rw own refl in
    let apart : eqb fd x.master_fd ≡ false =
      ap (eqb fd) (connection-others fd (record d { accepted = fd })).0
      ∙ served_apart fd d.master_fd d.handlers h no_handler has in
    let y = handle_unexpected fd bad (emit (Call.handle_task fd (Handler.events c) bad ∷ []) x) in
    let (dropped, lost, inactive, noted) =
      unexpected_drops fd k bad (emit (Call.handle_task fd (Handler.events c) bad ∷ []) x) c fails
        channel in
    let first : dispatch_event d.master_fd e fd d ≡ x = accepted_is fd e d h has readable good in
    let both : dispatch_event fd bad result (dispatch_event d.master_fd e fd d) ≡ run_pending y =
      ap (dispatch_event fd bad result) first
      ∙ failing_is fd result bad x (Handler.events c) handler apart in
    (
      ap (λ (q : Dispatcher). lookup fd q.handlers) first ∙ handler,
      ap (get_channel fd) first ∙ channel,
      ap (λ (q : Dispatcher). lookup k q.handlers) both
          ∙ dropped
          ∙ put_back fd k d.handlers (Handler.events c) no_handler others,
      ap (get_channel k) both ∙ lost ∙ put_back fd k d.all_channel c no_channel rest,
      ap (λ (q : Dispatcher). q.is_active c) both ∙ inactive,
      ap (λ (q : Dispatcher). q.wait_to_removed) both
          ∙ noted
          ∙ (connection-others fd (record d { accepted = fd })).1,
    )

lookup-erase_all :
    (fds : List ℤ) (k : ℤ) (m : List (ℤ × ℕ))
    → lookup k m ≡ none
    → lookup k (erase_all fds m) ≡ none
unfolding erase_all
lookup-erase_all [] k m h = h
lookup-erase_all (fd ∷ fds) k m h =
    lookup-erase_all fds k (erase fd m) (ground (arith, lookup-erase fd k m))

-- Inserting keeps what is there, and takes the first entry for a key that is not.
lookup-insert_all :
    (cs : List (ℤ × ℕ)) (k : ℤ) (m : List (ℤ × ℕ))
    → lookup k (insert_all cs m) ≡ (elim (lookup k m) [ none ↦ lookup k cs | some c ↦ some c ])
unfolding insert_all lookup
lookup-insert_all [] k m = ground arith
lookup-insert_all ((fd, c) ∷ cs) k m =
    ground (arith, lookup-insert_all cs k (emplace fd c m), lookup-emplace fd k c m, eqb_iff fd k)

-- While the channels of a dispatcher that notes nothing are taken out, an event with EPOLLERR, EPOLLHUP
-- or EPOLLRDHUP comes for a descriptor: after `RestoreAllChannel` that descriptor has no channel, every
-- other one has the channel that it had, and nothing stays noted.
pub restore_drops_closed :
    (fd k : ℤ) (e : Events) (d : Dispatcher)
    → is_unexpected e ≡ true
    → d.wait_to_removed ≡ []
    → let (taken, d1) = extract_existed_channel d in
      let d2 = restore_all_channel taken (handle_unexpected fd e d1) in
      (get_channel k d2 ≡ (if eqb fd k then none else get_channel k d)) × (d2.wait_to_removed ≡ [])
unfolding extract_existed_channel restore_all_channel handle_unexpected get_channel lookup erase
restore_drops_closed fd k e d bad none_noted = rw (bad, none_noted) (restored, refl)
  where
    restored :
        lookup k (insert_all (erase fd d.all_channel) [])
        ≡ (if eqb fd k then none else lookup k d.all_channel)
    restored = lookup-insert_all (erase fd d.all_channel) k [] ∙ lookup-erase fd k d.all_channel

-- A failed `::accept` on a running master without slaves: the dispatcher makes a channel object for
-- the negative descriptor and puts it in the map, if none was there.
failed_accept_adds_channel :
    (fd : ℤ) (n : ℕ) (e : Events) (d : Dispatcher) (h : Handler)
    → d.stop ≡ false
    → d.enable_slave ≡ false
    → lookup fd d.handlers ≡ some h
    → eqb fd d.master_fd ≡ true
    → e.input ≡ true
    → is_unexpected e ≡ false
    → get_channel (negsuc n) d ≡ none
    → let d' = dispatch_event fd e (negsuc n) d in
      (get_channel (negsuc n) d' ≡ some d.next_channel) × (d'.handlers ≡ d.handlers)
unfolding dispatch_event handle_unexpected handle_new_connection get_channel
failed_accept_adds_channel fd n e d h going alone has master readable good no_channel =
    rw (has, dispatch_event, master, readable, good, going, alone)
      (
        ground (
          arith,
          eqb_iff (negsuc n) (negsuc n),
          lookup-emplace (negsuc n) (negsuc n) d.next_channel d.all_channel,
        ),
        refl,
      )

connect_slaves :
    (fd : ℤ) (d : Dispatcher) (s : Slave) (others : List Slave)
    → d.enable_slave ≡ true
    → d.slaves ≡ s ∷ others
    → (s' : Slave) × ((handle_new_connection fd d).slaves ≡ s' ∷ others)
      × ((handle_new_connection fd d).enable_slave ≡ true)
unfolding handle_new_connection
connect_slaves fd d s others on e = (
  if is_negative fd then s else record s {
    slave_handlers = emplace fd (Handler.events d.next_channel) s.slave_handlers;
  },
  ground arith,
  ground arith,
)

-- New connections, one after another.
unfoldable pub connect_all : List ℤ → Dispatcher → Dispatcher
connect_all [] d = d
connect_all (fd ∷ fds) d = connect_all fds (handle_new_connection fd d)

-- With slaves enabled, and a first one there, all connections go to it: however many come, the other
-- slaves get nothing.
first_slave_takes_all :
    (fds : List ℤ) (d : Dispatcher) (s : Slave) (others : List Slave)
    → d.enable_slave ≡ true
    → d.slaves ≡ s ∷ others
    → (s' : Slave) × ((connect_all fds d).slaves ≡ s' ∷ others)
unfolding connect_all
first_slave_takes_all [] d s others on e = (s, e)
first_slave_takes_all (fd ∷ fds) d s others on e =
    let (s', e', on') = connect_slaves fd d s others on e in
    first_slave_takes_all fds (handle_new_connection fd d) s' others on' e'
