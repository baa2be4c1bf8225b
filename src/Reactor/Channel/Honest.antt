-- ===== src/Reactor/Channel/Honest.antt =====
-- What `::read` promises of a socket that does not block, for Channel.h.
use server_dev_lib.Base.{ℕ, ◌≤◌, ◌<◌, ◌≡◌, List, [], ◌++◌, length}
use server_dev_lib.Reactor.Channel.{Socket, Got}

-- What a read with room for `n` bytes may return, when `before` is what the connection still has to
-- deliver and `after` what it has then.
abbrev pub Delivers : ℕ → List ℕ → Got → List ℕ → Type 0
Delivers n before (Got.bytes b) after = (0 < length b) × (length b ≤ n) × (b ++ after ≡ before)
Delivers n before Got.eof after = (before ≡ []) × (after ≡ [])
Delivers n before Got.failed after = (before ≡ []) × (after ≡ [])

-- What `::read` promises of a socket that does not block and has no error: a read with room delivers
-- the next bytes, and reports the end or that it would block when there are none.
pub record IsHonest {S : Type 0} (socket : Socket S) (pending : S → List ℕ) : Type 0 where
  pub delivers :
      (s : S) (n : ℕ)
      → 0 < n
      → Delivers n (pending s) (socket.read s n).0 (pending (socket.read s n).1)
