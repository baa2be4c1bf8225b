-- ===== src/Example/Gather/Tests.antt =====
-- Runs of TcpServerExample.cpp, and its theorem at one.
use server_dev_lib.Base.{◌≡◌, refl, true, false, some, List, [], ◌∷◌, take, arith}
use server_dev_lib.Base.Int.{ℤ, pos, negsuc}
use server_dev_lib.Reactor.Channel.Samples.{list_socket}
use server_dev_lib.Tcp.Server.{Server, Call, create}
use server_dev_lib.Example.Gather.{Results, address, serve, exchange}
use server_dev_lib.Example.Gather.Accepted.{descriptors, serves_ten}

-- A client that has sent three bytes, one that has sent nothing, and a descriptor that is no socket.
hears :
    let e = exchange (list_socket false) 2048 (pos 2) (pos 0) (pos 5) (7 ∷ 8 ∷ 9 ∷ []) in
    (e.received ≡ true) × (take 4 e.text ≡ 7 ∷ 8 ∷ 9 ∷ b' ' ∷ []) × (e.sent ≡ true)
unfolding exchange
hears = (refl, refl, refl)

hears_nothing :
    let e = exchange (list_socket false) 2048 (pos 2) (pos 0) (pos 5) [] in
    (e.received ≡ false) × (e.sent ≡ true)
unfolding exchange
hears_nothing = (refl, refl)

refuses_zero :
    let e = exchange (list_socket false) 2048 (pos 2) (pos 0) (pos 0) (7 ∷ []) in
    (e.received ≡ false) × (e.sent ≡ false)
unfolding exchange
refuses_zero = (refl, refl)

abbrev all_well : Results
all_well = record {
  socket = pos 3;
  reused = pos 0;
  read_port = 9090;
  converted = pos 1;
  bound = pos 0;
  listened = pos 0;
}

abbrev ten_and_more : List ℤ
ten_and_more =
    pos 4
    ∷ negsuc 0
    ∷ pos 5
    ∷ pos 6
    ∷ pos 7
    ∷ negsuc 0
    ∷ pos 8
    ∷ pos 9
    ∷ pos 10
    ∷ pos 11
    ∷ pos 12
    ∷ pos 13
    ∷ pos 14
    ∷ []

serves_ten_example :
    (s' : Server) × (serve 2 all_well ten_and_more (create 0 2)
      ≡ some (take 10 (descriptors ten_and_more), s'))
    × (s'.access ≡ true)
    × (s'.calls
        ≡ Call.set_reuse (pos 3) (pos 1)
          ∷ Call.call_bind (pos 3) (address 2 all_well)
          ∷ Call.call_listen (pos 3) 512
          ∷ [])
unfolding descriptors
serves_ten_example = serves_ten 0 2 all_well ten_and_more refl refl (omega arith)
