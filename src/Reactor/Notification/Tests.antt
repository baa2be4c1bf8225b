-- ===== src/Reactor/Notification/Tests.antt =====
-- Tests of NotificationCenter.h, and its theorems at inputs that meet their hypotheses.
use server_dev_lib.Base.{ℕ, ◌≡◌, refl, Bool, true, [], ◌∷◌, if◌then◌else◌, ◌==◌}
use server_dev_lib.Base.Map.{lookup, update}
use server_dev_lib.Base.Int.{ℤ, pos, int_eq, eqb}
use server_dev_lib.Reactor.Notification.{ReadyState, Waiting, notify_data_ready, raise}
use server_dev_lib.Reactor.Notification.Barrier.{Barrier, Place}

abbrev waiting : Waiting
waiting = (pos 5, ReadyState.more) ∷ (pos 6, ReadyState.one) ∷ []

abbrev only_five : ℤ → Bool
only_five fd = eqb (pos 5) fd

notify_twice :
    notify_data_ready (pos 6) (notify_data_ready (pos 5) waiting)
    ≡ (pos 5, ReadyState.more_plus) ∷ (pos 6, ReadyState.more) ∷ []
unfolding notify_data_ready lookup raise update
notify_twice = refl

-- Thread 0 is inside the critical section, thread 1 waits, and the others are outside.
abbrev places : ℕ → Place
places i = if i == 0 then Place.inside else if i == 1 then Place.locking else Place.outside

abbrev contended : Barrier
contended = record { flag = true; place = places }
