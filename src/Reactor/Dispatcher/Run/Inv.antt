-- ===== src/Reactor/Dispatcher/Run/Inv.antt =====
-- What holds of the handlers and channels of Dispatcher.h, and what keeps it.
use server_dev_lib.Base.{
  ℕ, ◌<◌, ◌≡◌, refl, Bool, true, false, none, some, List, if◌then◌else◌, arith,
}
use server_dev_lib.Base.Map.{lookup, lookup-emplace, lookup-erase, emplace, erase, or_else}
use server_dev_lib.Base.Int.{ℤ, is_negative, is_positive, eqb, eqb_iff, int_eq}
use server_dev_lib.Reactor.Dispatcher.{
  Dispatcher, Handler, init, register_handler, handle_new_connection, inactivate, Call,
}

pub record Inv (d : Dispatcher) : Type 0 where
  pub alone : d.enable_slave ≡ false
  pub served :
      (fd : ℤ) (c : ℕ)
      → lookup fd d.handlers ≡ some (Handler.events c)
      → lookup fd d.all_channel ≡ some c
  pub kept :
      d.stop ≡ false
      → (fd : ℤ) → is_negative fd ≡ false
      → lookup fd d.handlers ≡ none
      → lookup fd d.all_channel ≡ none
  pub stopped : d.stop ≡ true → (fd : ℤ) → lookup fd d.handlers ≡ none
  pub master : (h : Handler) → lookup d.master_fd d.handlers ≡ some h → h ≡ Handler.accepts
  pub made : (fd : ℤ) (c : ℕ) → lookup fd d.all_channel ≡ some c → c < d.next_channel
  pub distinct :
      (fd gd : ℤ) (c : ℕ)
      → lookup fd d.all_channel ≡ some c
      → lookup gd d.all_channel ≡ some c
      → fd ≡ gd
  pub active :
      d.stop ≡ false
      → (fd : ℤ) (c : ℕ) → lookup fd d.all_channel ≡ some c
      → d.is_active c ≡ true
      → is_positive fd ≡ true

pub init-Inv : Inv init
unfolding init lookup
init-Inv = record {
  alone = refl;
  served = λ fd c h. absurd cc;
  kept = λ h fd n g. refl;
  stopped = λ h fd. refl;
  master = λ h e. absurd cc;
  made = λ fd c h. absurd cc;
  distinct = λ fd gd c h k. absurd cc;
  active = λ h fd c k a. absurd cc;
}

pub new_connection-Inv :
    (fd : ℤ) (d : Dispatcher) (h : Handler)
    → d.stop ≡ false
    → lookup d.master_fd d.handlers ≡ some h
    → Inv d
    → Inv (handle_new_connection fd d)
unfolding handle_new_connection register_handler
new_connection-Inv fd d h going there v = record {
  alone = ground (arith, v.alone);
  served = λ k c e.
      ground (arith, v.alone, eqb_iff fd k, handler k, channel k, v.served k c, v.kept going k);
  kept = λ g k n e. ground (arith, v.alone, eqb_iff fd k, handler k, channel k, v.kept going k);
  stopped = λ g k. ground (arith, v.alone);
  master = λ i e. ground (arith, v.alone, eqb_iff fd d.master_fd, handler d.master_fd, v.master i);
  made = λ k c e. ground (arith, v.alone, eqb_iff fd k, channel k, v.made k c);
  distinct = λ k j c e f. ground (
    arith,
    v.alone,
    eqb_iff fd k,
    eqb_iff fd j,
    channel k,
    channel j,
    v.distinct k j c,
    v.made k c,
    v.made j c,
  );
  active =
      λ g k c e a. ground (arith, v.alone, eqb_iff fd k, channel k, v.active going k c, v.made k c);
}
  where
    handler :
        (k : ℤ)
        → lookup k (emplace fd (Handler.events d.next_channel) d.handlers) ≡ (
            if eqb fd k
            then some (or_else (lookup fd d.handlers) (Handler.events d.next_channel))
            else lookup k d.handlers)
    handler k = lookup-emplace fd k (Handler.events d.next_channel) d.handlers

    channel :
        (k : ℤ)
        → lookup k (emplace fd d.next_channel d.all_channel) ≡ (
            if eqb fd k
            then some (or_else (lookup fd d.all_channel) d.next_channel)
            else lookup k d.all_channel)
    channel k = lookup-emplace fd k d.next_channel d.all_channel

-- The fields that `Inv` does not speak of.
pub others-Inv :
    (d : Dispatcher) (accepted : ℤ) (pending : List ℕ) (removed : List ℤ) (calls : List Call)
    → Inv d
    → Inv (record d {
      accepted = accepted;
      pending_fn = pending;
      wait_to_removed = removed;
      calls = calls;
    })
others-Inv d accepted pending removed calls v = record {
  alone = v.alone;
  served = v.served;
  kept = v.kept;
  stopped = v.stopped;
  master = v.master;
  made = v.made;
  distinct = v.distinct;
  active = v.active;
}

-- A descriptor that loses its handler and its channel; the flag of that channel may change.
module _ (fd : ℤ) (d : Dispatcher) (flags : ℕ → Bool)
    (same : (k : ℤ) (c : ℕ)
      → eqb fd k ≡ false
      → lookup k d.all_channel ≡ some c
      → flags c ≡ d.is_active c)
    (v : Inv d) where
  pub erased-Inv : Inv (record d {
    handlers = erase fd d.handlers;
    all_channel = erase fd d.all_channel;
    is_active = flags;
  })
  erased-Inv = record {
    alone = v.alone;
    served = λ k c e. ground (arith, handler k, channel k, v.served k c);
    kept = λ g k n e. ground (arith, handler k, channel k, v.kept g k n);
    stopped = λ g k. ground (arith, handler k, v.stopped g k);
    master = λ h e. ground (arith, handler d.master_fd, v.master h);
    made = λ k c e. ground (arith, channel k, v.made k c);
    distinct = λ k j c e f. ground (arith, channel k, channel j, v.distinct k j c);
    active = λ g k c e a. ground (arith, channel k, v.active g k c, same k c);
  }
    where
      handler :
          (k : ℤ)
          → lookup k (erase fd d.handlers) ≡ (if eqb fd k then none else lookup k d.handlers)
      handler k = lookup-erase fd k d.handlers

      channel :
          (k : ℤ)
          → lookup k (erase fd d.all_channel) ≡ (if eqb fd k then none else lookup k d.all_channel)
      channel k = lookup-erase fd k d.all_channel

-- A descriptor without a channel that loses its handler.
pub unserved-Inv :
    (fd : ℤ) (d : Dispatcher)
    → lookup fd d.all_channel ≡ none
    → Inv d
    → Inv (record d { handlers = erase fd d.handlers })
unserved-Inv fd d no_channel v = record {
  alone = v.alone;
  served = λ k c e. ground (arith, lookup-erase fd k d.handlers, v.served k c);
  kept = λ g k n e. ground (arith, eqb_iff fd k, lookup-erase fd k d.handlers, v.kept g k n);
  stopped = λ g k. ground (arith, lookup-erase fd k d.handlers, v.stopped g k);
  master = λ h e. ground (arith, lookup-erase fd d.master_fd d.handlers, v.master h);
  made = v.made;
  distinct = v.distinct;
  active = v.active;
}

-- A task that came to the end of the stream of its channel.
pub ended-Inv : (c : ℕ) (d : Dispatcher) → Inv d → Inv (inactivate c d)
ended-Inv c d v = record {
  alone = v.alone;
  served = v.served;
  kept = v.kept;
  stopped = v.stopped;
  master = v.master;
  made = v.made;
  distinct = v.distinct;
  active = λ g k b e a. ground (arith, v.active g k b);
}
