-- ===== src/Tcp/Socket/Tests.antt =====
-- The theorems of TcpSocket.h at inputs that meet their hypotheses.
use server_dev_lib.Base.{ℕ, ◌≡◌, refl, some, List, [], ◌∷◌, length, take, drop, arith}
use server_dev_lib.Base.Int.{pos}
use server_dev_lib.Io.Device.{read}
use server_dev_lib.Reactor.Channel.{Socket, Got}
use server_dev_lib.Tcp.Socket.{driver}
use server_dev_lib.Tcp.Socket.Delivery.{opened, read_delivers_nothing}

-- A connection whose state is what it has still to deliver, and which takes three bytes at most.
abbrev network : Socket (List ℕ)
network = record {
  read = λ s n. (Got.bytes (take n s), drop n s);
  write = λ s text. (some (length (take 3 text)), s);
}

read_delivers_nothing_example :
    let t = opened (pos 5) in
    let (n, m, d, s) = read (driver network t) t.device (7 ∷ 8 ∷ []) (some (0 ∷ 0 ∷ 0 ∷ [])) 3 in
    (n ≡ 2) × (m ≡ some (0 ∷ 0 ∷ 0 ∷ [])) × (s ≡ [])
read_delivers_nothing_example =
    read_delivers_nothing network (pos 5) (7 ∷ 8 ∷ []) [] (7 ∷ 8 ∷ []) (0 ∷ 0 ∷ 0 ∷ []) 3 refl refl
      (omega arith) (omega arith)
