-- ===== src/Threadpool/CpuStats/Fields.antt =====
-- What `>>` reads of printed numbers.
use server_dev_lib.Base.{
  ℕ, zero, suc, ◌+◌, ◌-◌, ◌*◌, ◌/◌, ◌%◌, ◌^◌, ◌≤◌, ◌<◌, ◌≡◌, refl, ◌∙◌, sym, ap, true, false, some,
  List, [], ◌∷◌, ◌++◌, ltb, leb, Bool-cases, inl, inr, arith,
}
use server_dev_lib.Base.Int.{pos}
use server_dev_lib.Logging.Format.{show, show_digits}
use server_dev_lib.Threadpool.CpuStats.{
  is_digit, read_digits, read_long, read_positive, skip_space, long_max, starts_with_digit,
}

-- What stands behind the digits goes along.
show_digits-append :
    (fuel n : ℕ) (out rest : List ℕ)
    → show_digits fuel n out ++ rest ≡ show_digits fuel n (out ++ rest)
unfolding show_digits
show_digits-append zero n out rest = refl
show_digits-append (suc fuel) n out rest = elim (Bool-cases (ltb n 10)) [
  | inl last ↦ rw last refl
  | inr more ↦ rw more (show_digits-append fuel (n / 10) ((n % 10 + b'0') ∷ out) rest)
]

read_digits-step :
    (n d m : ℕ) (cs : List ℕ)
    → d < 10
    → n * 10 + d ≡ m
    → read_digits n ((d + b'0') ∷ cs) ≡ read_digits m cs
unfolding read_digits
read_digits-step n d m cs h e =
    let digit : is_digit (d + b'0') ≡ true = ground arith in
    let value : n * 10 + (d + b'0' - b'0') ≡ m = omega arith in rw (digit, value) refl

read_digits-show_digits :
    (fuel n : ℕ) (out : List ℕ)
    → n < 10 ^ (suc fuel)
    → read_digits 0 (show_digits (suc fuel) n out) ≡ read_digits n out
unfolding show_digits
read_digits-show_digits zero n out h =
    let last : ltb n 10 ≡ true = ground arith in
    rw last (read_digits-step 0 n n out (omega arith) (omega arith))
read_digits-show_digits (suc fuel) n out h = elim (Bool-cases (ltb n 10)) [
  | inl last ↦
      let small : n < 10 = ground arith in rw last (read_digits-step 0 n n out small (omega arith))
  | inr more ↦ rw more (
      read_digits-show_digits fuel (n / 10) ((n % 10 + b'0') ∷ out) (omega arith)
      ∙ read_digits-step (n / 10) (n % 10) n out (omega arith) (omega arith))
]

read_digits-stop :
    (n : ℕ) (rest : List ℕ) → starts_with_digit rest ≡ false → read_digits n rest ≡ (n, rest)
unfolding read_digits
read_digits-stop n [] h = refl
read_digits-stop n (c ∷ cs) h = rw h refl

read_digits-show :
    (n : ℕ) (rest : List ℕ)
    → n ≤ long_max
    → starts_with_digit rest ≡ false
    → read_digits 0 (show n ++ rest) ≡ (n, rest)
unfolding show
read_digits-show n rest h stop =
    ap (read_digits 0) (show_digits-append 20 n [] rest)
    ∙ read_digits-show_digits 19 n rest (omega arith)
    ∙ read_digits-stop n rest stop

-- A printed number starts with a digit.
show_digits-head :
    (fuel n : ℕ) (out : List ℕ)
    → (d : ℕ) × (tail : List ℕ) × (d < 10) × (show_digits (suc fuel) n out ≡ (d + b'0') ∷ tail)
unfolding show_digits
show_digits-head zero n out = elim (Bool-cases (ltb n 10)) [
  | inl last ↦ let small : n < 10 = ground arith in (n, out, small, rw last refl)
  | inr more ↦ rw more (n % 10, out, omega arith, refl)
]
show_digits-head (suc fuel) n out = elim (Bool-cases (ltb n 10)) [
  | inl last ↦ let small : n < 10 = ground arith in (n, out, small, rw last refl)
  | inr more ↦ rw more (show_digits-head fuel (n / 10) ((n % 10 + b'0') ∷ out))
]

read_long-digit :
    (d : ℕ) (tail : List ℕ)
    → d < 10
    → read_long (some ((d + b'0') ∷ tail)) ≡ read_positive ((d + b'0') ∷ tail)
unfolding read_long skip_space
read_long-digit d tail h = ground arith

read_positive-digit :
    (n d : ℕ) (tail rest : List ℕ)
    → d < 10
    → read_digits 0 ((d + b'0') ∷ tail) ≡ (n, rest)
    → n ≤ long_max
    → read_positive ((d + b'0') ∷ tail) ≡ (some (pos n), some rest)
unfolding read_positive
read_positive-digit n d tail rest h e fits =
    let digit : is_digit (d + b'0') ≡ true = ground arith in
    let low : leb n long_max ≡ true = ground arith in rw (e, digit, low) refl

pub read_long-space : (text : List ℕ) → read_long (some (b' ' ∷ text)) ≡ read_long (some text)
unfolding read_long skip_space
read_long-space text = refl

-- A printed number behind a space, with something other than a digit behind it.
pub read_long-show :
    (n : ℕ) (rest : List ℕ)
    → n ≤ long_max
    → starts_with_digit rest ≡ false
    → read_long (some (b' ' ∷ (show n ++ rest))) ≡ (some (pos n), some rest)
unfolding show
read_long-show n rest h stop =
    let (d, tail, small, shown) = show_digits-head 19 n [] in
    let text : show n ++ rest ≡ (d + b'0') ∷ (tail ++ rest) = ap (λ t. t ++ rest) shown in
    let digits : read_digits 0 ((d + b'0') ∷ (tail ++ rest)) ≡ (n, rest) =
      ap (read_digits 0) (sym text) ∙ read_digits-show n rest h stop in
    read_long-space (show n ++ rest)
    ∙ ap (λ t. read_long (some t)) text
    ∙ read_long-digit d (tail ++ rest) small
    ∙ read_positive-digit n d (tail ++ rest) rest small digits h
