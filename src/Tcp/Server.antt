-- ===== src/Tcp/Server.antt =====
-- include/server/TcpServer.h, with the members of Address.h: a listening socket and the set of accepted
-- descriptors. What each system call returns is an argument; the calls that change the system are a
-- trace.
pub mod Clients
pub mod Once
mod Tests
use server_dev_lib.Base.{
  ℕ, ◌≡◌, Bool, true, false, not, ◌||◌, List, [], ◌∷◌, ◌++◌, if◌then◌else◌, map,
}
use server_dev_lib.Base.Int.{ℤ, pos, negsuc, is_positive, eqb}

pub record Address : Type 0 where
  pub ip : List ℕ
  pub port : ℕ
  pub family : ℕ

pub data Call : Type 0 where
  call_bind : ℤ → Address → Call
  call_listen : ℤ → ℕ → Call
  set_reuse set_nodelay : ℤ → ℤ → Call
  close : ℤ → Call

pub record Server : Type 0 where
  pub fd : ℤ
  pub access : Bool
  pub save_all_connection : Bool
  pub addr : Address
  pub all_accepted : List ℤ
  pub calls : List Call

-- `TcpServer()`, with what stands in the members that `Address()` leaves uninitialised.
unfoldable pub create : ℕ → ℕ → Server
create port family = record {
  fd = pos 0;
  access = false;
  save_all_connection = false;
  addr = record { ip = []; port = port; family = family };
  all_accepted = [];
  calls = [];
}

abbrev call : Call → Server → Server
call c s = record s { calls = s.calls ++ (c ∷ []) }

-- `Init()`, where `socket` returns `result`: the descriptor is used as a truth value.
unfoldable pub init : ℤ → Server → Bool × Server
init result s =
    if s.access
    then (false, s)
    else (not (eqb result (pos 0)), record s { fd = result; access = not (eqb result (pos 0)) })

-- `Bind(addr)`, where `inet_pton` returns `converted` and `bind` returns `result`
unfoldable pub bind : Address → ℤ → ℤ → Server → ℤ × Server
bind a converted result s =
    if is_positive converted
    then (result, call (Call.call_bind s.fd a) (record s { addr = a }))
    else (converted, s)

-- `Listen(n)`
unfoldable pub listen : ℕ → ℤ → Server → ℤ × Server
listen n result s =
    if not s.access then (negsuc 0, s) else (result, call (Call.call_listen s.fd n) s)

unfoldable pub member : ℤ → List ℤ → Bool
member k [] = false
member k (j ∷ js) = eqb j k || member k js

-- `std::set::emplace` and `erase`
unfoldable pub insert : ℤ → List ℤ → List ℤ
unfolding member
insert k js = if member k js then js else k ∷ js

unfoldable pub remove : ℤ → List ℤ → List ℤ
remove k [] = []
remove k (j ∷ js) = let rest = remove k js in if eqb j k then rest else j ∷ rest

-- `Accept()`, where `accept` returns `result`
unfoldable pub accept : ℤ → Server → ℤ × Server
unfolding insert
accept result s = if not s.access then (negsuc 0, s) else (
  result,
  if is_positive result then record s { all_accepted = insert result s.all_accepted } else s,
)

-- `ReuseAddress(opt)` and `DisableNagle(opt)`
unfoldable pub reuse_address : ℤ → ℤ → Server → ℤ × Server
reuse_address opt result s =
    if not s.access then (negsuc 0, s) else (result, call (Call.set_reuse s.fd opt) s)

unfoldable pub disable_nagle : ℤ → ℤ → Server → ℤ × Server
disable_nagle opt result s =
    if not s.access then (negsuc 0, s) else (result, call (Call.set_nodelay s.fd opt) s)

-- `Shutdown()`
unfoldable pub shutdown : Server → Server
shutdown s = if not s.access then s else record s {
  access = false;
  all_accepted = [];
  calls =
      s.calls
      ++ (Call.close s.fd ∷ (if s.save_all_connection then map Call.close s.all_accepted else []));
}

-- `AutoSaveAcceptedFD(b)`
unfoldable pub auto_save_accepted_fd : Bool → Server → Server
auto_save_accepted_fd b s = record s { save_all_connection = b }

-- `CloseCilent(fd)`
unfoldable pub close_client : ℤ → Server → Bool × Server
unfolding member remove
close_client k s =
    if member k s.all_accepted
    then (true, call (Call.close k) (record s { all_accepted = remove k s.all_accepted }))
    else (false, s)
