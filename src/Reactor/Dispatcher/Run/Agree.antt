-- ===== src/Reactor/Dispatcher/Run/Agree.antt =====
-- Over any run of Dispatcher.h, a handler serves the channel that `GetChannel` gives.
use server_dev_lib.Base.{
  ℕ, ◌≡◌, refl, Bool, true, false, ◌||◌, ◌&&◌, none, some, List, [], ◌∷◌, if◌then◌else◌, arith,
  Option-cases, Bool-cases, inl, inr, ◌⊎◌,
}
use server_dev_lib.Base.Map.{lookup, lookup-emplace, emplace, erase, or_else}
use server_dev_lib.Base.Int.{ℤ, pos, is_negative, is_positive, eqb, eqb_iff, int_eq}
use server_dev_lib.Reactor.Dispatcher.{
  Dispatcher, Handler, Events, register_handler, set_master_fd, handle_new_connection,
  handle_unexpected, drop_channel, is_unexpected, remove_handler, accept_event, run_pending,
  dispatch_event, shutdown, get_channel, inactivate,
}
use server_dev_lib.Reactor.Dispatcher.Run.{
  Ready, dispatch_batch, dispatch, Op, perform, Allowed, Reach, start, next,
}
use server_dev_lib.Reactor.Dispatcher.Run.Inv.{
  Inv, init-Inv, new_connection-Inv, others-Inv, erased-Inv, unserved-Inv, ended-Inv,
}

unexpected-Inv : (fd : ℤ) (e : Events) (d : Dispatcher) → Inv d → Inv (handle_unexpected fd e d)
unfolding handle_unexpected
unexpected-Inv fd e d v = elim (Bool-cases (is_unexpected e)) [
  | inl bad ↦ elim (Option-cases (lookup fd d.all_channel)) [
    | inl no_channel ↦
        rw (bad, no_channel, drop_channel)
          (others-Inv (record d { handlers = erase fd d.handlers }) d.accepted d.pending_fn _ _
            (unserved-Inv fd d no_channel v))
    | inr (c, there) ↦
        rw (bad, there, drop_channel)
          (others-Inv
            (record (inactivate c d) {
              handlers = erase fd d.handlers;
              all_channel = erase fd d.all_channel;
            })
            d.accepted d.pending_fn d.wait_to_removed _
            (erased-Inv fd d (inactivate c d).is_active
              (λ k b far at. ground (arith, eqb_iff fd k, v.distinct fd k c)) v))
  ]
  | inr fine ↦ rw fine v
]

remove-Inv : (fd : ℤ) (d : Dispatcher) → Inv d → Inv (remove_handler fd d).1
unfolding remove_handler
remove-Inv fd d v = elim (Bool-cases (d.stop || is_negative fd)) [
  | inl refused ↦ rw refused v
  | inr done ↦ elim (Option-cases (lookup fd d.all_channel)) [
    | inl no_channel ↦ rw (done, no_channel) (unserved-Inv fd d no_channel v)
    | inr (c, there) ↦
        rw (done, there)
          (others-Inv
            (record d { handlers = erase fd d.handlers; all_channel = erase fd d.all_channel })
            d.accepted d.pending_fn d.wait_to_removed _
            (erased-Inv fd d d.is_active (λ k b far at. refl) v))
  ]
]

set_master-Inv :
    (fd : ℤ) (d : Dispatcher) → lookup fd d.handlers ≡ none → Inv d → Inv (set_master_fd fd d)
unfolding set_master_fd register_handler
set_master-Inv fd d no_handler v = record {
  alone = ground (arith, v.alone);
  served = λ k c e. ground (arith, eqb_iff fd k, handler k, v.served k c);
  kept = λ g k n e.
      let g' : d.stop ≡ false = ground arith in
      ground (arith, eqb_iff fd k, handler k, v.kept g' k n, v.kept g' fd);
  stopped = λ g k. let g' : d.stop ≡ true = ground arith in ground (arith, v.stopped g' k);
  master = λ h e. ground (arith, handler fd, v.master h);
  made = λ k c e. ground (arith, v.made k c);
  distinct = λ k j c e f. ground (arith, v.distinct k j c);
  active = λ g k c e a. let g' : d.stop ≡ false = ground arith in ground (arith, v.active g' k c);
}
  where
    handler :
        (k : ℤ)
        → lookup k (emplace fd Handler.accepts d.handlers) ≡ (
            if eqb fd k
            then some (or_else (lookup fd d.handlers) Handler.accepts)
            else lookup k d.handlers)
    handler k = lookup-emplace fd k Handler.accepts d.handlers

shutdown-Inv : (d : Dispatcher) → Inv d → Inv (shutdown d)
unfolding shutdown lookup
shutdown-Inv d v = elim (Bool-cases d.stop) [
  | inl stopped ↦ simp stopped v
  | inr going ↦ rw going (elim (Bool-cases (eqb d.master_fd (pos 0))) [
    | inl unset ↦ rw unset (record {
      alone = v.alone;
      served = λ k c e. absurd cc;
      kept = λ g k n e. absurd cc;
      stopped = λ g k. refl;
      master = λ h e. absurd cc;
      made = v.made;
      distinct = v.distinct;
      active = λ g k c e a. absurd cc;
    })
    | inr set ↦ rw set (record {
      alone = v.alone;
      served = λ k c e. absurd cc;
      kept = λ g k n e. refl;
      stopped = λ g k. refl;
      master = λ h e. absurd cc;
      made = λ k c e. absurd cc;
      distinct = λ k j c e f. absurd cc;
      active = λ g k c e a. absurd cc;
    })
  ])
]

accept-Inv :
    (e : Events) (result : ℤ) (d : Dispatcher) (h : Handler)
    → d.stop ≡ false
    → lookup d.master_fd d.handlers ≡ some h
    → Inv d
    → let d' = accept_event e result d in Inv (handle_new_connection d'.accepted d')
unfolding accept_event
accept-Inv e result d h going there v = elim (Bool-cases e.input) [
  | inl input ↦ simp input (
      new_connection-Inv result (record d { accepted = result }) h going there
        (others-Inv d result d.pending_fn d.wait_to_removed d.calls v))
  | inr none_came ↦ simp none_came (new_connection-Inv d.accepted d h going there v)
]

served-going :
    (d : Dispatcher) (fd : ℤ) (h : Handler) → lookup fd d.handlers ≡ some h → Inv d → d.stop ≡ false
served-going d fd h there v = elim (Bool-cases d.stop) [
  | inl stopped ↦ absurd (cc (v.stopped stopped fd))
  | inr going ↦ going
]

event-Inv :
    (fd : ℤ) (e : Events) (result : ℤ) (d : Dispatcher) → Inv d → Inv (dispatch_event fd e result d)
unfolding dispatch_event run_pending
event-Inv fd e result d v = elim (Option-cases (lookup fd d.handlers)) [
  | inl no_handler ↦ rw (no_handler, dispatch_event) v
  | inr (h, there) ↦
      rw (there, dispatch_event)
        (elim (Bool-cases (eqb fd d.master_fd)) [
          | inl own ↦
              let at_master : lookup d.master_fd d.handlers ≡ some h =
                rw (← (eqb_iff fd d.master_fd).0 own) there in
              let going : d.stop ≡ false = served-going d fd h there v in
              simp own (ran (unexpected-Inv fd e _ (accept-Inv e result d h going at_master v)))
          | inr other ↦ simp other (
              ran (
                unexpected-Inv fd e _ (others-Inv d d.accepted d.pending_fn d.wait_to_removed _ v)))
        ])
]
  where
    ran : {d' : Dispatcher} → Inv d' → Inv (run_pending d')
    ran {d'} w = others-Inv d' d'.accepted [] d'.wait_to_removed _ w

perform-Inv : (op : Op) (d : Dispatcher) → Allowed op d → Inv d → Inv (perform op d)
unfolding perform
perform-Inv (Op.event fd e result) d h v = event-Inv fd e result d v
perform-Inv (Op.set_master fd) d h v = set_master-Inv fd d h v
perform-Inv (Op.remove fd) d h v = remove-Inv fd d v
perform-Inv Op.shut d h v = shutdown-Inv d v
perform-Inv (Op.ended c) d h v = ended-Inv c d v

Reach-Inv : {d : Dispatcher} → Reach d → Inv d
Reach-Inv start = init-Inv
Reach-Inv (next {d} op r h) = perform-Inv op d h (Reach-Inv r)

Reach-batch : (batch : List Ready) {d : Dispatcher} → Reach d → Reach (dispatch_batch batch d)
unfolding dispatch_batch perform
Reach-batch [] r = r
Reach-batch (e ∷ es) r = Reach-batch es (next (Op.event e.fd e.events e.result) r tt)

Reach-dispatch :
    (batches : List (List Ready)) {d : Dispatcher} → Reach d → Reach (dispatch batches d)
unfolding dispatch
Reach-dispatch [] r = r
Reach-dispatch (batch ∷ batches) {d} r = elim (Bool-cases d.stop) [
  | inl stopped ↦ simp stopped r
  | inr going ↦ simp going (Reach-dispatch batches (Reach-batch batch r))
]

-- A dispatcher without slaves after any sequence of events, of tasks that found the end of the stream
-- of a channel, and of calls of `SetMasterFD`, with a descriptor that has no handler, `RemoveHandler`
-- and `Shutdown`, and after `Dispatch` has then run on any batches of events: when a descriptor has a
-- handler for a channel, `GetChannel` gives that channel for this descriptor and for no other, the
-- channel is active only if the descriptor is positive, and the master's handler is not for a channel.
pub connections_agree :
    (d : Dispatcher) (batches : List (List Ready)) (fd gd : ℤ) (c : ℕ)
    → Reach d
    → lookup fd (dispatch batches d).handlers ≡ some (Handler.events c)
    → get_channel gd (dispatch batches d) ≡ some c
    → let d' = dispatch batches d in
      (get_channel fd d' ≡ some c)
      × (fd ≡ gd)
      × (d'.is_active c && is_positive fd ≡ d'.is_active c)
      × (eqb fd d'.master_fd ≡ false)
unfolding get_channel
connections_agree d batches fd gd c r serves other =
    let d' = dispatch batches d in
    let v = Reach-Inv (Reach-dispatch batches r) in
    let found = v.served fd c serves in
    let going = served-going d' fd (Handler.events c) serves v in
    (
      found,
      v.distinct fd gd c found other,
      only (d'.is_active c) (is_positive fd) (v.active going fd c found),
      apart (Bool-cases (eqb fd d'.master_fd)),
    )
  where
    only : (a b : Bool) → (a ≡ true → b ≡ true) → (a && b) ≡ a
    only true b h = h refl
    only false b h = refl

    apart :
        (eqb fd (dispatch batches d).master_fd ≡ true)
          ⊎ (eqb fd (dispatch batches d).master_fd ≡ false)
        → eqb fd (dispatch batches d).master_fd ≡ false
    apart (inl own) =
        let d' = dispatch batches d in
        let v = Reach-Inv (Reach-dispatch batches r) in
        let at_master : lookup d'.master_fd d'.handlers ≡ some (Handler.events c) =
          rw (← (eqb_iff fd d'.master_fd).0 own) serves in
        absurd (cc (v.master (Handler.events c) at_master))
    apart (inr other_fd) = other_fd
