-- ===== src/Logging/Format/Digits.antt =====
-- The digits that the logging code prints for numbers of up to four digits.
use server_dev_lib.Base.{
  ℕ, suc, ◌+◌, ◌/◌, ◌%◌, ◌≤◌, ◌<◌, ◌≡◌, refl, ◌∙◌, List, [], ◌∷◌, true, false, Bool-cases, inl, inr,
  ltb, arith,
}
use server_dev_lib.Logging.Format.{show_digits, show, pad, two}

show-last : (fuel n : ℕ) (out : List ℕ) → n < 10 → show_digits (suc fuel) n out ≡ (n + b'0') ∷ out
unfolding show_digits
show-last fuel n out h = let small : ltb n 10 ≡ true = ground arith in rw small refl

show-more :
    (fuel n : ℕ) (out : List ℕ)
    → 10 ≤ n
    → show_digits (suc fuel) n out ≡ show_digits fuel (n / 10) ((n % 10 + b'0') ∷ out)
unfolding show_digits
show-more fuel n out h = let large : ltb n 10 ≡ false = ground arith in rw large refl

show-digits : (n : ℕ) → show n ≡ show_digits 20 n []
unfolding show
show-digits n = refl

-- The digits of a number, from the left.
show_one : (n : ℕ) → n < 10 → show n ≡ (n + b'0') ∷ []
show_one n h = show-digits n ∙ show-last 19 n [] h

show_two : (n : ℕ) → 10 ≤ n → n < 100 → show n ≡ (n / 10 + b'0') ∷ (n % 10 + b'0') ∷ []
show_two n low high = show-digits n ∙ show-more 19 n [] low ∙ show-last 18 (n / 10) _ (omega arith)

show_three :
    (n : ℕ)
    → 100 ≤ n
    → n < 1000
    → show n ≡ (n / 100 + b'0') ∷ (n / 10 % 10 + b'0') ∷ (n % 10 + b'0') ∷ []
show_three n low high =
    let hundreds : n / 10 / 10 ≡ n / 100 = omega arith in
    show-digits n
    ∙ show-more 19 n [] (omega arith)
    ∙ show-more 18 (n / 10) _ (omega arith)
    ∙ show-last 17 (n / 10 / 10) _ (omega arith)
    ∙ rw hundreds refl

pub show_four :
    (n : ℕ)
    → 1000 ≤ n
    → n < 10000
    → show n
      ≡ (n / 1000 + b'0') ∷ (n / 100 % 10 + b'0') ∷ (n / 10 % 10 + b'0') ∷ (n % 10 + b'0') ∷ []
show_four n low high =
    let hundreds : n / 10 / 10 ≡ n / 100 = omega arith in
    let thousands : n / 100 / 10 ≡ n / 1000 = omega arith in
    show-digits n
    ∙ show-more 19 n [] (omega arith)
    ∙ show-more 18 (n / 10) _ (omega arith)
    ∙ show-more 17 (n / 10 / 10) _ (omega arith)
    ∙ show-last 16 (n / 10 / 10 / 10) _ (omega arith)
    ∙ rw (hundreds, thousands) refl

two-pad : (n : ℕ) → two n ≡ pad 2 b'0' (show n)
unfolding two
two-pad n = refl

-- A column of two digits, and one of three.
pub two_lem : (n : ℕ) → n < 100 → two n ≡ (n / 10 + b'0') ∷ (n % 10 + b'0') ∷ []
unfolding pad
two_lem n h = elim (Bool-cases (ltb n 10)) [
  | inl one ↦
      let small : n < 10 = ground arith in
      let tens : n / 10 ≡ 0 = omega arith in
      let ones : n % 10 ≡ n = omega arith in two-pad n ∙ rw (show_one n small, tens, ones) refl
  | inr more ↦ let large : 10 ≤ n = ground arith in two-pad n ∙ rw (show_two n large h) refl
]

pub pad_three :
    (n : ℕ)
    → n < 1000
    → pad 3 b'0' (show n) ≡ (n / 100 + b'0') ∷ (n / 10 % 10 + b'0') ∷ (n % 10 + b'0') ∷ []
unfolding pad
pad_three n h = elim (Bool-cases (ltb n 10)) [
  | inl one ↦
      let small : n < 10 = ground arith in
      let hundreds : n / 100 ≡ 0 = omega arith in
      let tens : n / 10 % 10 ≡ 0 = omega arith in
      let ones : n % 10 ≡ n = omega arith in rw (show_one n small, hundreds, tens, ones) refl
  | inr more ↦ elim (Bool-cases (ltb n 100)) [
    | inl middle ↦
        let low : 10 ≤ n = ground arith in
        let high : n < 100 = ground arith in
        let hundreds : n / 100 ≡ 0 = omega arith in
        let tens : n / 10 % 10 ≡ n / 10 = omega arith in
        rw (show_two n low high, hundreds, tens) refl
    | inr most ↦ let low : 100 ≤ n = ground arith in rw (show_three n low h) refl
  ]
]
