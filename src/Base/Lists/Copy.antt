-- ===== src/Base/Lists/Copy.antt =====
-- `memcpy` into a block of memory at an offset.
use Prim.Native.Nat.{ℕ, zero, suc, ◌+◌, ◌-◌, ◌≤◌}
use mathlib.Core.Path.{◌≡◌, refl, ap}
use mathlib.Core.List.{List, [], ◌∷◌, ◌++◌}
use native.Mathlib.Omega.{arith}
use server_dev_lib.Base.Lists.Cut.{length, take, drop}

module _ {ℓ} {A : Type ℓ} where
  -- The bytes that fall past the end of the block are dropped: the code's own bounds rule them out.
  unfoldable pub copy_at : List A → ℕ → List A → List A
  copy_at [] i ys = []
  copy_at (x ∷ xs) (suc i) ys = x ∷ copy_at xs i ys
  copy_at (x ∷ xs) zero [] = x ∷ xs
  copy_at (x ∷ xs) zero (y ∷ ys) = y ∷ copy_at xs zero ys

  pub length-copy_at : (xs : List A) (i : ℕ) (ys : List A) → length (copy_at xs i ys) ≡ length xs
  unfolding copy_at
  length-copy_at [] i ys = refl
  length-copy_at (x ∷ xs) (suc i) ys = ap suc (length-copy_at xs i ys)
  length-copy_at (x ∷ xs) zero [] = refl
  length-copy_at (x ∷ xs) zero (y ∷ ys) = ap suc (length-copy_at xs zero ys)

  pub copy_at-nil : (xs : List A) (i : ℕ) → copy_at xs i [] ≡ xs
  unfolding copy_at
  copy_at-nil [] i = refl
  copy_at-nil (x ∷ xs) zero = refl
  copy_at-nil (x ∷ xs) (suc i) = ap (◌∷◌ x) (copy_at-nil xs i)

  -- What lies before the block that is written stays.
  pub take-copy_at_before :
      (m : ℕ) (xs : List A) (i : ℕ) (ys : List A) → m ≤ i → take m (copy_at xs i ys) ≡ take m xs
  unfolding copy_at
  take-copy_at_before zero xs i ys h = refl
  take-copy_at_before (suc m) [] i ys h = refl
  take-copy_at_before (suc m) (x ∷ xs) zero ys h = absurd (omega arith)
  take-copy_at_before (suc m) (x ∷ xs) (suc i) ys h =
      ap (◌∷◌ x) (take-copy_at_before m xs i ys (omega arith))

  -- What lies behind it stays too.
  pub drop-copy_at_after :
      (m : ℕ) (xs : List A) (i : ℕ) (ys : List A)
      → i + length ys ≤ m
      → drop m (copy_at xs i ys) ≡ drop m xs
  unfolding copy_at
  drop-copy_at_after m [] i ys h = refl
  drop-copy_at_after m (x ∷ xs) zero [] h = refl
  drop-copy_at_after zero (x ∷ xs) zero (y ∷ ys) h = absurd (omega arith)
  drop-copy_at_after zero (x ∷ xs) (suc i) ys h = absurd (omega arith)
  drop-copy_at_after (suc m) (x ∷ xs) zero (y ∷ ys) h =
      drop-copy_at_after m xs zero ys (omega arith)
  drop-copy_at_after (suc m) (x ∷ xs) (suc i) ys h = drop-copy_at_after m xs i ys (omega arith)

  -- The block reads back.
  pub take-copy_at :
      (xs : List A) (i : ℕ) (ys : List A)
      → i + length ys ≤ length xs
      → take (i + length ys) (copy_at xs i ys) ≡ take i xs ++ ys
  unfolding copy_at
  take-copy_at [] zero [] h = refl
  take-copy_at [] zero (y ∷ ys) h = absurd (omega arith)
  take-copy_at [] (suc i) ys h = absurd (omega arith)
  take-copy_at (x ∷ xs) zero [] h = refl
  take-copy_at (x ∷ xs) zero (y ∷ ys) h =
      let e : 0 + suc (length ys) ≡ suc (0 + length ys) = omega arith in
      rw e (ap (◌∷◌ y) (take-copy_at xs zero ys (omega arith)))
  take-copy_at (x ∷ xs) (suc i) ys h =
      let e : suc i + length ys ≡ suc (i + length ys) = omega arith in
      rw e (ap (◌∷◌ x) (take-copy_at xs i ys (omega arith)))

  pub drop-copy_at_before :
      (m : ℕ) (xs : List A) (i : ℕ) (ys : List A)
      → m ≤ i
      → drop m (copy_at xs i ys) ≡ copy_at (drop m xs) (i - m) ys
  unfolding copy_at
  drop-copy_at_before zero xs i ys h = ground arith
  drop-copy_at_before (suc m) [] i ys h = refl
  drop-copy_at_before (suc m) (x ∷ xs) zero ys h = absurd (omega arith)
  drop-copy_at_before (suc m) (x ∷ xs) (suc i) ys h = ground (arith, drop-copy_at_before m xs i ys)

  -- Two blocks side by side are one block.
  pub copy_at-append :
      (xs : List A) (i : ℕ) (ys zs : List A)
      → copy_at (copy_at xs i ys) (i + length ys) zs ≡ copy_at xs i (ys ++ zs)
  unfolding copy_at
  copy_at-append [] i ys zs = refl
  copy_at-append (x ∷ xs) zero [] zs = ground arith
  copy_at-append (x ∷ xs) zero (y ∷ ys) zs = ground (arith, copy_at-append xs zero ys zs)
  copy_at-append (x ∷ xs) (suc i) ys zs = ground (arith, copy_at-append xs i ys zs)

  -- A write over the whole block.
  pub copy_at_whole : (xs ys : List A) → length ys ≡ length xs → copy_at xs 0 ys ≡ ys
  unfolding copy_at
  copy_at_whole [] [] h = refl
  copy_at_whole [] (y ∷ ys) h = absurd (omega (arith, h))
  copy_at_whole (x ∷ xs) [] h = absurd (omega (arith, h))
  copy_at_whole (x ∷ xs) (y ∷ ys) h = ap (◌∷◌ y) (copy_at_whole xs ys (omega (arith, h)))
