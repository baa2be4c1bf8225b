-- ===== src/Reactor/Channel/Inactive.antt =====
-- A channel of Channel.h that is inactive, and its destructor.
use server_dev_lib.Base.{ℕ, ◌≡◌, refl, Bool, some, List, []}
use server_dev_lib.Reactor.Channel.{
  Channel, Socket, Reserve, destroy, make_inactive, read, write, notify_write_event,
  get_received_data,
}

-- The destructor does not shut the connection down, whatever the channel.
destroy_keeps_open : (c : Channel) → destroy c ≡ []
unfolding destroy
destroy_keeps_open c = refl

-- A channel that is inactive is left alone by every call, and makes none.
inactive_is_silent :
    {S : Type 0} (socket : Socket S) (string : Reserve) (fuel : ℕ)
    (has_cb has_notify has_sent : Bool) (c : Channel) (s : S) (text : List ℕ)
    → let c' = make_inactive c in
      (read socket string fuel has_cb has_notify c' s ≡ some (c', s, []))
      × (write socket has_sent c' s ≡ (c', s, []))
      × (notify_write_event text c' ≡ (c', []))
      × (get_received_data c' ≡ ([], c'))
unfolding make_inactive read write notify_write_event get_received_data
inactive_is_silent socket string fuel has_cb has_notify has_sent c s text = (refl, refl, refl, refl)
