-- ===== src/Reactor/Channel/Tests.antt =====
-- Tests of Channel.h, and its theorems at inputs that meet their hypotheses.
use server_dev_lib.Base.{
  ℕ, ◌≡◌, refl, true, false, some, List, [], ◌∷◌, ◌++◌, arith, length, take, replicate,
  length-replicate, copy_at,
}
use mathlib.Core.Option
use server_dev_lib.Base.Int.{pos, negsuc}
use server_dev_lib.Reactor.Channel.{
  Channel, Effect, buf_size, substr, init, read_loop, read_end, read, write, notify_write_event,
  get_received_data,
}
use server_dev_lib.Reactor.Channel.Receive.{read_delivers}
use server_dev_lib.Reactor.Channel.Total.{read_total}
use server_dev_lib.Reactor.Channel.Samples.{
  list_socket, list_socket-IsHonest, growing, open_channel, grown,
}
use server_dev_lib.Reactor.Channel.Send.{Op, notify, writable, run, sent_bytes, send_fifo}

inactive_start : ((init (negsuc 0) true).active ≡ false) × ((init (pos 0) true).active ≡ false)
unfolding init
inactive_start = (refl, refl)

-- 200 pending bytes: the callback is told 200 and given 128.
long_read_truncates :
    Option.map {B = ℕ × ℕ}
      (λ t. (t.0.received_count, length (get_received_data t.0).0))
      (read
        (list_socket false)
        growing
        9
        false
        false
        (record open_channel { received_count = 0 })
        (replicate 200 5))
    ≡ some (200, 128)
unfolding read read_loop read_end get_received_data grown copy_at
long_read_truncates = refl

read_delivers_example :
    (c' : Channel) × (s' : List ℕ) × (rest : List Effect) × (read
        (list_socket false)
        growing
        5
        true
        false
        open_channel
        (3 ∷ 4 ∷ [])
      ≡ some (c', s', Effect.received_cb 4 (1 ∷ 1 ∷ 3 ∷ 4 ∷ []) ∷ rest))
    × (c'.received_count ≡ 4)
    × (substr c'.received 4 ≡ 1 ∷ 1 ∷ 3 ∷ 4 ∷ [])
    × (s' ≡ [])
read_delivers_example =
    read_delivers growing (list_socket-IsHonest false) 5 false open_channel (3 ∷ 4 ∷ []) refl
      (omega arith) (omega arith) (omega arith)

read_total_example :
    (c' : Channel) × (s' : List ℕ) × (rest : List Effect) × (read
        (list_socket false)
        growing
        201
        true
        false
        open_channel
        (replicate 200 5)
      ≡ some (c', s', Effect.received_cb 202 (take buf_size (1 ∷ 1 ∷ replicate 200 5)) ∷ rest))
    × (c'.received_count ≡ 202)
    × (substr c'.received 202 ≡ take buf_size (1 ∷ 1 ∷ replicate 200 5))
    × (s' ≡ [])
read_total_example =
    read_total growing (list_socket-IsHonest false) 201 false open_channel (replicate 200 5) refl
      (omega (arith, length-replicate {A = ℕ} 200 5)) (omega arith) (omega arith)
      (omega (arith, length-replicate {A = ℕ} 200 5))

abbrev script : List Op
script = notify (1 ∷ 2 ∷ 3 ∷ []) ∷ writable ∷ notify (4 ∷ []) ∷ writable ∷ []

sends : (run (list_socket false) script open_channel []).1 ≡ 9 ∷ 1 ∷ 2 ∷ 3 ∷ 4 ∷ []
unfolding run sent_bytes write notify_write_event
sends = refl

send_fifo_example :
    let (c', log) = run (list_socket false) script open_channel [] in
    log ++ c'.sending ≡ 9 ∷ 1 ∷ 2 ∷ 3 ∷ 4 ∷ []
send_fifo_example = send_fifo (list_socket false) script open_channel [] refl
