-- ===== src/Reactor/Dispatcher/Shutdown.antt =====
-- What `Shutdown` of Dispatcher.h leaves behind.
use server_dev_lib.Base.{ℕ, ◌≡◌, refl, Bool, false, some, List, [], ◌∷◌, arith}
use server_dev_lib.Base.Map.{lookup}
use server_dev_lib.Base.Int.{ℤ, pos, eqb, eqb_iff, int_eq}
use server_dev_lib.Reactor.Dispatcher.{
  Dispatcher, Events, get_channel, dispatch_event, shutdown, inactivate_all,
}

-- A channel in the map is inactive afterwards.
inactivate_all-lookup :
    (m : List (ℤ × ℕ)) (k : ℤ) (c : ℕ) (f : ℕ → Bool)
    → lookup k m ≡ some c
    → inactivate_all m f c ≡ false
unfolding inactivate_all lookup
inactivate_all-lookup [] k c f h = cc
inactivate_all-lookup ((fd, b) ∷ m) k c f h =
    ground (arith, eqb_iff fd k, inactivate_all-lookup m k c f)

-- The first `Shutdown` of a dispatcher with a master descriptor other than 0 forgets every handler and
-- every channel, makes the channels inactive, and events that still come change nothing.
shutdown_forgets :
    (k fd : ℤ) (c : ℕ) (e : Events) (result : ℤ) (d : Dispatcher)
    → d.stop ≡ false
    → eqb d.master_fd (pos 0) ≡ false
    → get_channel k d ≡ some c
    → let d' = shutdown d in
      (d'.handlers ≡ [])
      × (d'.all_channel ≡ [])
      × (d'.is_active c ≡ false)
      × (dispatch_event fd e result d' ≡ d')
unfolding shutdown get_channel dispatch_event lookup
shutdown_forgets k fd c e result d going master has =
    rw (going, master) (refl, refl, inactivate_all-lookup d.all_channel k c d.is_active has, refl)
