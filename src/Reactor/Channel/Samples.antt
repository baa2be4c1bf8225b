-- ===== src/Reactor/Channel/Samples.antt =====
-- A socket, a string and a channel for tests.
use server_dev_lib.Base.{
  ℕ, ◌-◌, ◌≤◌, ◌<◌, ◌≡◌, refl, Bool, true, false, not, some, List, [], ◌∷◌, ◌++◌, append-nil, arith,
  length, take, drop, replicate, length-take, length-append, length-replicate, take-append,
  take-append-drop,
}
use server_dev_lib.Base.Int.{pos}
use server_dev_lib.Reactor.Channel.{Channel, Socket, Reserve, Got, buf_size}
use server_dev_lib.Reactor.Channel.Honest.{IsHonest, Delivers}
use server_dev_lib.Reactor.Channel.Ending.{Never, ending}

-- A socket that hands out a list, as much as is asked for, and then ends or would block; it takes three
-- bytes at most.
abbrev pub read_list : Bool → List ℕ → ℕ → Got × List ℕ
read_list ends [] n = (ending ends, [])
read_list ends (x ∷ xs) n = (Got.bytes (take n (x ∷ xs)), drop n (x ∷ xs))

abbrev pub list_socket : Bool → Socket (List ℕ)
list_socket ends = record { read = read_list ends; write = λ s b. (some (length (take 3 b)), s) }

list_socket-Delivers :
    (ends : Bool) (s : List ℕ) (n : ℕ)
    → 0 < n
    → Delivers n s (read_list ends s n).0 (read_list ends s n).1
list_socket-Delivers true [] n h = (refl, refl)
list_socket-Delivers false [] n h = (refl, refl)
list_socket-Delivers ends (x ∷ xs) n h = (
  omega (arith, length-take n (x ∷ xs)),
  omega (arith, length-take n (x ∷ xs)),
  take-append-drop n (x ∷ xs),
)

pub list_socket-IsHonest : (ends : Bool) → IsHonest (list_socket ends) (λ s. s)
list_socket-IsHonest ends = record { delivers = list_socket-Delivers ends }

pub list_socket-Never : (ends : Bool) → Never (list_socket ends) (not ends)
unfolding Never
list_socket-Never true [] n = λ e. cc e
list_socket-Never false [] n = λ e. cc e
list_socket-Never true (x ∷ xs) n = λ e. cc e
list_socket-Never false (x ∷ xs) n = λ e. cc e

unfoldable pub grown : List ℕ → ℕ → List ℕ
grown m n = m ++ replicate n 0

pub length-grown : (m : List ℕ) (n : ℕ) → n ≤ length (grown m n)
unfolding grown
length-grown m n = omega (arith, length-append m (replicate n 0), length-replicate {A = ℕ} n 0)

pub grown_keeps : (m : List ℕ) (k n : ℕ) → k ≤ length m → take k (grown m n) ≡ take k m
unfolding grown
grown_keeps m k n h =
    let none_left : k - length m ≡ 0 = omega arith in
    rw (take-append k m, none_left, append-nil) refl

abbrev pub growing : Reserve
growing = record {
  reserve = grown;
  length-reserve = length-grown;
  reserve_keeps = λ m n h. grown_keeps m buf_size n h;
}

abbrev pub open_channel : Channel
open_channel = record {
  fd = pos 7;
  active = true;
  received_count = 2;
  received = replicate buf_size 1;
  sending = 9 ∷ [];
  has_demultiplexer = true;
}
