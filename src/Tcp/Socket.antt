-- ===== src/Tcp/Socket.antt =====
-- include/server/TcpSocket.h: a connection as a buffered device. What each system call returns is an
-- argument; `::read` and `::write` are those of a socket that is a parameter, as for a channel.
pub mod Delivery
mod Tests
use Prim.Native.Nat.{bit_and, bit_or}
use server_dev_lib.Base.{
  ℕ, ◌-◌, ◌^◌, Bool, true, false, not, Option, none, some, List, [], ◌∷◌, ◌++◌, if◌then◌else◌,
  length,
}
use server_dev_lib.Base.Int.{ℤ, pos, negsuc, is_positive, is_negative}
use server_dev_lib.Io.Device.{IoDevice, Mode, Driver, Reply, init, set_open_mode}
use server_dev_lib.Reactor.Channel.{Socket, Got}

pub data Call : Type 0 where
  close_fd : ℤ → Call
  set_flags : ℤ → ℕ → Call

pub record TcpSocket : Type 0 where
  pub fd : ℤ
  pub valid : Bool
  pub device : IoDevice
  pub calls : List Call

-- `TcpSocket(fd)`, and `TcpSocket()` with what `::socket` returns.
unfoldable pub create : ℤ → TcpSocket
create fd = record { fd = fd; valid = is_positive fd; device = init; calls = [] }

-- `Close()`
unfoldable pub close : TcpSocket → TcpSocket
close t =
    if t.valid then record t { valid = false; calls = t.calls ++ (Call.close_fd t.fd ∷ []) } else t

-- `Open(mode)`: whatever the mode, a valid socket is opened for both ways.
unfoldable pub open_socket : TcpSocket → Bool × TcpSocket
open_socket t =
    if not t.valid
    then (false, record t { device = set_open_mode Mode.none_mode t.device })
    else (true, record t { device = set_open_mode Mode.rw t.device })

-- `Nonblocking(flag)`, where `fcntl` gives `flags` and then `result`, and `o_nonblock` is its flag.
unfoldable pub nonblocking : ℕ → Bool → ℤ → ℤ → TcpSocket → ℤ × TcpSocket
nonblocking o_nonblock flag (negsuc n) result t = if not t.valid then (t.fd, t) else (negsuc n, t)
nonblocking o_nonblock flag (pos flags) result t =
    let flags' = if flag then bit_or flags o_nonblock else flags - bit_and flags o_nonblock in
    if not t.valid
    then (t.fd, t)
    else (result, record t { calls = t.calls ++ (Call.set_flags t.fd flags' ∷ []) })

-- `AvailableBytes()`, where `ioctl` returns `result` and stores `available`
unfoldable pub available_bytes : ℤ → ℤ → TcpSocket → ℤ
available_bytes result available t =
    if not t.valid then negsuc 0 else (if is_negative result then negsuc 0 else available)

-- What `::read` stores and returns; -1 becomes a `std::size_t`.
unfoldable pub reply_of : {S : Type 0} → Got → S → Reply S
reply_of (Got.bytes b) s = record { stored = b; ret = length b; rest = s }
reply_of Got.eof s = record { stored = []; ret = 0; rest = s }
reply_of Got.failed s = record { stored = []; ret = 2 ^ 64 - 1; rest = s }

unfoldable pub count_of : Option ℕ → ℕ
count_of none = 2 ^ 64 - 1
count_of (some n) = n

-- `IsSequential`, `ReadData` and `WriteData`
unfoldable pub driver : {S : Type 0} → Socket S → TcpSocket → Driver S
unfolding reply_of count_of
driver socket t = record {
  is_sequential = true;
  read_data = λ s n.
      if not t.valid
      then record { stored = []; ret = 0; rest = s }
      else reply_of (socket.read s n).0 (socket.read s n).1;
  write_data = λ s text.
      if not t.valid then (0, s) else (count_of (socket.write s text).0, (socket.write s text).1);
}
