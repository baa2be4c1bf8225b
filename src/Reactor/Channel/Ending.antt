-- ===== src/Reactor/Channel/Ending.antt =====
-- How the loop of `Read` of Channel.h ends: with the end of the stream, or with nothing to read now.
use server_dev_lib.Base.{
  ℕ, zero, suc, ◌-◌, ◌≡◌, ◌≢◌, refl, Bool, true, false, Option, some, length, copy_at,
}
use server_dev_lib.Base.Int.{int_eq}
use server_dev_lib.Reactor.Channel.{Channel, Socket, Reserve, Got, make_room, after_read, read_loop}

-- The two ways in which the loop of `Read` ends.
abbrev pub ending : Bool → Got
ending true = Got.eof
ending false = Got.failed

-- No read of the socket ends in this way.
unfoldable pub Never : {S : Type 0} → Socket S → Bool → Type 0
Never {S} socket b = (s : S) (n : ℕ) → (socket.read s n).0 ≢ ending b

unfoldable pub EndsWith : {S : Type 0} → Bool → Option (Channel × S × Bool) → Type 0
EndsWith {S} b out = (c : Channel) (s : S) (b' : Bool) → out ≡ some (c, s, b') → b' ≢ b

after_read-EndsWith :
    {S : Type 0} (b : Bool) (next : Channel → S → ℕ → Option (Channel × S × Bool)) (c : Channel)
    (g : Got) (s : S)
    → g ≢ ending b
    → ((c' : Channel) (s' : S) (n : ℕ) → EndsWith b (next c' s' n))
    → EndsWith b (after_read next c g s)
unfolding after_read EndsWith
after_read-EndsWith b next c (Got.bytes bs) s other ih =
    ih (record c { received = copy_at c.received c.received_count bs }) s (length bs)
after_read-EndsWith true next c Got.eof s other ih = absurd (other refl)
after_read-EndsWith false next c Got.eof s other ih = λ c' s' b' e f. cc (e, f)
after_read-EndsWith true next c Got.failed s other ih = λ c' s' b' e f. cc (e, f)
after_read-EndsWith false next c Got.failed s other ih = absurd (other refl)

pub read_loop-EndsWith :
    {S : Type 0} (socket : Socket S) (string : Reserve) (b : Bool)
    → Never socket b
    → (fuel : ℕ) (c : Channel) (s : S) (got valid : ℕ)
    → EndsWith b (read_loop socket string fuel c s got valid)
unfolding read_loop Never EndsWith
read_loop-EndsWith socket string b never zero c s got valid = λ c' s' b' e f. cc e
read_loop-EndsWith socket string b never (suc fuel) c s got valid =
    let c1 = make_room socket string c got valid in
    let room = length c1.received - c1.received_count in
    let (g, s') = socket.read s room in
    after_read-EndsWith b (λ c'' s'' n. read_loop socket string fuel c'' s'' n room) c1 g s'
      (never s room) (λ c' s'' n. read_loop-EndsWith socket string b never fuel c' s'' n room)
