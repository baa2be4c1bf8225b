-- ===== src/Example/Reply/Tests.antt =====
-- Runs of the loop of ReactorExample.cpp, and its theorem at one.
use server_dev_lib.Base.{◌≡◌, refl, true, none, some, [], ◌∷◌, ◌++◌, replicate, arith}
use server_dev_lib.Base.Map.{lookup, update}
use server_dev_lib.Base.Int.{pos, int_eq}
use server_dev_lib.Reactor.Channel.{Channel, get_received_data}
use server_dev_lib.Reactor.Channel.Samples.{open_channel}
use server_dev_lib.Reactor.Notification.{ReadyState}
use server_dev_lib.Reactor.Notification.Pending.{count}
use server_dev_lib.Reactor.Delivery.{Center, handle_ready}
use server_dev_lib.Reactor.Delivery.Handed.{IsKeyed, no_channels-IsKeyed, add-IsKeyed}
use server_dev_lib.Example.Reply.{answer, reply}
use server_dev_lib.Example.Reply.Once.{answers_once}

-- A connection with twelve bytes that were received.
abbrev person_came : Channel
person_came = record open_channel { received = replicate 128 1; received_count = 12 }

abbrev one_waits : Center
one_waits = record {
  channels = (pos 7, person_came) ∷ [];
  waiting = (pos 7, ReadyState.more) ∷ [];
  tasks = [];
}

one_waits-IsKeyed : IsKeyed one_waits.channels
one_waits-IsKeyed = add-IsKeyed (pos 7) person_came [] refl no_channels-IsKeyed

-- Two notifications for bytes that one pass has handed out: the next pass copies a person from an empty
-- text.
abbrev handed_before : Center
handed_before = record one_waits {
  channels = (pos 7, record person_came { received_count = 0 }) ∷ [];
}

copies_from_nothing : answer handed_before ≡ none
unfolding answer handle_ready lookup update get_received_data
copies_from_nothing = refl

answers_once_example :
    (r' : Center) × (c' : Channel) × (answer one_waits ≡ some r')
    × (lookup (pos 7) r'.channels ≡ some c')
    × (c'.active ≡ true)
    × (c'.sending ≡ person_came.sending ++ reply)
unfolding handle_ready lookup update get_received_data count
answers_once_example =
    answers_once one_waits (pos 7) person_came one_waits-IsKeyed (refl, tt) refl refl
      (omega arith, tt)
