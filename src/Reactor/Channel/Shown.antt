-- ===== src/Reactor/Channel/Shown.antt =====
-- What the string of Channel.h shows of a block that grows.
use server_dev_lib.Base.{
  ℕ, ◌-◌, ◌≤◌, ◌≡◌, refl, sym, ap, ◌∙◌, Bool, true, List, ◌∷◌, ◌++◌, append-nil, arith, min, leb,
  length, take, take-take, take-append, length-take, Bool-cases, inl, inr,
}
use server_dev_lib.Reactor.Channel.{
  Channel, Reserve, Effect, buf_size, substr, read_end, closing_effects,
}

-- What a string shows of all that was received.
abbrev pub shown : List ℕ → List ℕ
shown all = take buf_size all

take-long :
    (n k : ℕ) (xs ys : List ℕ) → n ≤ k → n ≤ length xs → take n (take k xs ++ ys) ≡ take n xs
take-long n k xs ys h l =
    let least : min n k ≡ n = omega arith in
    let none_left : n - length (take k xs) ≡ 0 = omega (arith, length-take k xs) in
    rw (take-append n (take k xs) ys, take-take n k xs, least, none_left) (append-nil (take n xs))

-- A new block shows the same.
pub shown-reserve :
    (string : Reserve) (m : List ℕ) (size k : ℕ) (more : List ℕ)
    → buf_size ≤ length m
    → length m ≤ size
    → shown (take k (string.reserve m size) ++ more) ≡ shown (take k m ++ more)
shown-reserve string m size k more block larger = elim (Bool-cases (leb buf_size k)) [
  | inl past ↦
      take-long buf_size k (string.reserve m size) more (ground arith)
        (omega (arith, string.length-reserve m size))
      ∙ string.reserve_keeps m size block
      ∙ sym (take-long buf_size k m more (ground arith) block)
  | inr before ↦
      let least : min k buf_size ≡ k = ground arith in
      let same : take k (string.reserve m size) ≡ take k m =
        ap (λ n. take n (string.reserve m size)) (sym least)
        ∙ sym (take-take k buf_size (string.reserve m size))
        ∙ ap (take k) (string.reserve_keeps m size block)
        ∙ take-take k buf_size m
        ∙ ap (λ n. take n m) least in
      ap (λ xs. shown (xs ++ more)) same
]

-- What is handed out of a block is what the string shows of it.
pub substr-shown : (m all : List ℕ) (n : ℕ) → shown (take n m) ≡ shown all → substr m n ≡ shown all
substr-shown m all n seen =
    let same : min n buf_size ≡ min buf_size n = omega arith in
    take-take n buf_size m ∙ ap (λ k. take k m) same ∙ sym (take-take buf_size n m) ∙ seen

-- What the callback is told, and what it leaves in the channel.
pub read_end-shown :
    (c : Channel) (has_notify at_eof : Bool) (n : ℕ) (all : List ℕ)
    → c.received_count ≡ n
    → shown (take n c.received) ≡ shown all
    → let (c', es) = read_end true has_notify c at_eof in
      (rest : List Effect) × (es ≡ Effect.received_cb n (shown all) ∷ rest)
      × (c'.received_count ≡ n)
      × (substr c'.received n ≡ shown all)
unfolding read_end
read_end-shown c has_notify at_eof n all e seen =
    (closing_effects has_notify c at_eof, rw (e, text) refl, ground arith, ground (arith, text))
  where
    text : substr c.received n ≡ shown all
    text = substr-shown c.received all n seen
