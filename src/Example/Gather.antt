-- ===== src/Example/Gather.antt =====
-- example/TcpServerExample.cpp: ten connections are accepted, and each is read from and answered.
pub mod Accepted
mod Tests
use server_dev_lib.Base.{
  ℕ, zero, suc, ◌^◌, ◌%◌, Bool, true, ◌&&◌, Option, none, some, List, [], ◌∷◌, ◌++◌, ltb,
  if◌then◌else◌, length, drop, replicate,
}
use server_dev_lib.Base.Map.{map_option}
use server_dev_lib.Base.Text.{codes}
use server_dev_lib.Base.Int.{ℤ, pos, is_negative}
use server_dev_lib.Io.Device.{Reply, Driver}
use server_dev_lib.Reactor.Channel.{Socket}
use server_dev_lib.Tcp.Server.{Address, Server, init, reuse_address, bind, listen, accept}
use server_dev_lib.Tcp.Socket.{TcpSocket, create, nonblocking, driver}

-- The results of the system calls that set the server up, and of `atoi`, as an unsigned number.
pub record Results : Type 0 where
  pub socket : ℤ
  pub reused : ℤ
  pub read_port : ℕ
  pub converted : ℤ
  pub bound : ℤ
  pub listened : ℤ

-- `addr`, where `family` is `AF_INET`
unfoldable pub address : ℕ → Results → Address
address family r = record { ip = codes "127.0.0.1"; port = r.read_port % 2 ^ 16; family = family }

-- Each result is printed or not, and what comes next is done whatever it is.
unfoldable pub set_up : ℕ → Results → Server → Server
unfolding init reuse_address bind listen address
set_up family r ser =
    let inited = (init r.socket ser).1 in
    let reusing = (reuse_address (pos 1) r.reused inited).1 in
    let bound = (bind (address family r) r.converted r.bound reusing).1 in
    (listen 512 r.listened bound).1

abbrev add_first : ℤ → List ℤ × Server → List ℤ × Server
add_first fd (fds, s) = (fd ∷ fds, s)

-- `while (count <= 10)`, with the connections that are still to come and the results of `::accept`; none
-- while it goes on at the end of those.
unfoldable pub gather : ℕ → List ℤ → Server → Option (List ℤ × Server)
unfolding accept
gather zero results s = some ([], s)
gather (suc n) [] s = none
gather (suc n) (result ∷ results) s =
    let (fd, s') = accept result s in
    let again = gather (suc n) results s' in
    let on = map_option (add_first fd) (gather n results s') in if is_negative fd then again else on

-- The server from its start to the end of the loop.
unfoldable pub serve : ℕ → Results → List ℤ → Server → Option (List ℤ × Server)
unfolding set_up gather
serve family r results ser = gather 10 results (set_up family r ser)

abbrev pub reply : List ℕ
reply = codes "Hey, You. How you doing?"

-- `> 0` of an `ssize_t` of 64 bits
abbrev pub is_count : ℕ → Bool
is_count n = ltb 0 n && ltb n (2 ^ 63)

-- What is done with one socket: whether it is taken for a message, the text `str`, and whether the answer is
-- taken for sent.
pub record Exchange (S : Type 0) : Type 0 where
  pub received : Bool
  pub text : List ℕ
  pub sent : Bool
  pub rest : S

-- The function of `std::for_each`, where `fcntl` gives `flags` and `result`.
unfoldable pub exchange : {S : Type 0} → Socket S → ℕ → ℤ → ℤ → ℤ → S → Exchange S
unfolding create nonblocking driver
exchange socket o_nonblock flags result fd s =
    let t = (nonblocking o_nonblock true flags result (create fd)).1 in
    let d = driver socket t in
    let got = d.read_data s 128 in
    let (wrote, rest) = d.write_data got.rest reply in
    record {
      received = is_count got.ret;
      text = got.stored ++ drop (length got.stored) (replicate 128 b' ');
      sent = is_count wrote;
      rest = rest;
    }
