-- ===== src/Tcp/Socket/Delivery.antt =====
-- What the buffered device makes of a connection of TcpSocket.h.
use server_dev_lib.Base.{
  ℕ, ◌<◌, ◌≡◌, refl, sym, ap, ◌∙◌, subst, true, false, ◌==◌, some, List, [], ◌∷◌, ◌++◌, min, length,
  take, arith,
}
use server_dev_lib.Base.Int.{ℤ, pos, negsuc, is_positive}
use server_dev_lib.Io.Device.{
  IoDevice, Mode, Driver, read, write, fill, fill_room, refill, accept, init, set_open_mode,
  has_read_mode, has_write_mode,
}
use server_dev_lib.Io.Device.Read.{read_sequential}
use server_dev_lib.Reactor.Channel.{Socket, Got}
use server_dev_lib.Tcp.Socket.{TcpSocket, Call, create, open_socket, close, driver}

-- A new connection that has been opened.
abbrev pub opened : ℤ → TcpSocket
opened fd = (open_socket (create fd)).1

abbrev device : IoDevice
unfolding init set_open_mode
device = set_open_mode Mode.rw init

opened_lem :
    (fd : ℤ)
    → is_positive fd ≡ true
    → opened fd ≡ record { fd = fd; valid = true; device = device; calls = [] }
unfolding open_socket create device
opened_lem (pos ℕ.zero) good = cc
opened_lem (pos (ℕ.suc n)) good = refl
opened_lem (negsuc n) good = cc

-- The refill of an empty buffer from its start.
fill_empty :
    {S : Type 0} (source : Driver S) (d : IoDevice) (s s' : S) (bytes : List ℕ)
    → d.head ≡ 0
    → d.tail ≡ 0
    → d.size ≡ 0
    → source.read_data s 1024 ≡ record { stored = bytes; ret = length bytes; rest = s' }
    → length bytes < 1024
    → ((fill source d s).0.size ≡ length bytes) × ((fill source d s).1 ≡ s')
unfolding fill fill_room accept refill
fill_empty source d s s' bytes head tail size got short =
    rw (head, tail, size) (rw got (omega arith, refl))

received :
    {S : Type 0} (socket : Socket S) (t : TcpSocket) (s s' : S) (bytes : List ℕ)
    → t.valid ≡ true
    → socket.read s 1024 ≡ (Got.bytes bytes, s')
    → (driver socket t).read_data s 1024 ≡ record { stored = bytes; ret = length bytes; rest = s' }
unfolding driver
received socket t s s' bytes valid got = rw (valid, got) refl

-- The first `Read` of a positive size on an opened connection whose `::read` delivers bytes, fewer than
-- the buffer holds: it returns the smaller of the size asked for and their number, and writes none of
-- them to the caller's block.
pub read_delivers_nothing :
    {S : Type 0} (socket : Socket S) (fd : ℤ) (s s' : S) (bytes block : List ℕ) (size : ℕ)
    → is_positive fd ≡ true
    → socket.read s 1024 ≡ (Got.bytes bytes, s')
    → length bytes < 1024
    → 0 < size
    → let t = opened fd in
      let (n, m, d, s'') = read (driver socket t) t.device s (some block) size in
      (n ≡ min size (length bytes)) × (m ≡ some block) × (s'' ≡ s')
unfolding has_read_mode device driver
read_delivers_nothing socket fd s s' bytes block size good got short more =
    let t : TcpSocket = record { fd = fd; valid = true; device = device; calls = [] } in
    let d = driver socket t in
    let arrived = received socket t s s' bytes refl got in
    let (stored, rest) = fill_empty d device s s' bytes refl refl refl arrived short in
    let same = read_sequential d device s block size refl refl more in
    subst
      (λ (u : TcpSocket).
        let (n, m, d', s'') = read (driver socket u) u.device s (some block) size in
        (n ≡ min size (length bytes)) × (m ≡ some block) × (s'' ≡ s'))
      (sym (opened_lem fd good))
      (ap (λ r. r.0) same ∙ ap (min size) stored, ap (λ r. r.1) same, ap (λ r. r.3) same ∙ rest)

written :
    {S : Type 0} (socket : Socket S) (t : TcpSocket) (s s' : S) (block : List ℕ) (size sent : ℕ)
    → t.valid ≡ true
    → has_write_mode t.device ≡ true
    → 0 < size
    → socket.write s (take size block) ≡ (some sent, s')
    → write (driver socket t) t.device s (some block) size ≡ (sent, s')
unfolding write driver
written socket t s s' block size sent valid writable more got =
    let positive : (size == 0) ≡ false = ground arith in rw (writable, positive, valid, got) refl

-- `Write` of a positive size on an opened connection hands the front of the block to `::write`, whose
-- count it returns.
write_lem :
    {S : Type 0} (socket : Socket S) (fd : ℤ) (s s' : S) (block : List ℕ) (size sent : ℕ)
    → is_positive fd ≡ true
    → 0 < size
    → socket.write s (take size block) ≡ (some sent, s')
    → let t = opened fd in write (driver socket t) t.device s (some block) size ≡ (sent, s')
unfolding has_write_mode device
write_lem socket fd s s' block size sent good more got =
    subst (λ (u : TcpSocket). write (driver socket u) u.device s (some block) size ≡ (sent, s'))
      (sym (opened_lem fd good))
      (written socket (record { fd = fd; valid = true; device = device; calls = [] }) s s' block
        size sent refl refl more got)

-- A socket that has been closed: the descriptor is closed once, however often `Close` is called, nothing
-- is read, written or available, and opening it fails.
close_lem :
    {S : Type 0} (socket : Socket S) (t : TcpSocket) (s : S) (n : ℕ) (text : List ℕ)
    → t.valid ≡ true
    → let t' = close t in
      (t'.calls ≡ t.calls ++ (Call.close_fd t.fd ∷ []))
      × (close t' ≡ t')
      × ((driver socket t').read_data s n ≡ record { stored = []; ret = 0; rest = s })
      × ((driver socket t').write_data s text ≡ (0, s))
      × ((open_socket t').0 ≡ false)
unfolding close driver open_socket
close_lem socket t s n text good = rw good (refl, refl, refl, refl, refl)
