-- ===== src/Io/Device/Ring.antt =====
-- The invariant of the circular buffer of IODevice.h, the bytes that it holds, and how a write at
-- `_tail` and a step of `_head` change them.
use native.Mathlib.Nat.{mod-eq_of_lt, mod-eq-sub-mod}
use native.Mathlib.Decide.{dec_lt}
use server_dev_lib.Base.{
  ℕ, ◌+◌, ◌-◌, ◌%◌, ◌≤◌, ◌<◌, ◌≡◌, refl, ◌∙◌, List, ◌++◌, append-nil, append_assoc, min, arith,
  take, drop, length, length-append, length-take, length-drop, take_all, drop_all, take-append,
  drop-append, take-take, drop-take, drop-drop, take-nil, copy_at, length-copy_at,
  drop-copy_at_after, take-copy_at, drop-copy_at_before,
}
use server_dev_lib.Io.Device.{IoDevice, buf_size}

-- `n` bytes from index `h` on, going round at the end of the block once.
unfoldable pub ring_slice : List ℕ → ℕ → ℕ → List ℕ
ring_slice buf h n = take n (drop h buf) ++ take (n - (length buf - h)) buf

-- The unread bytes, oldest first.
abbrev pub contents : IoDevice → List ℕ
contents d = ring_slice d.buf d.head d.size

pub record IsValid (d : IoDevice) : Type 0 where
  pub block : length d.buf ≡ buf_size
  pub head_in : d.head < buf_size
  pub size_in : d.size ≤ buf_size
  pub tail_at : d.tail ≡ (d.head + d.size) % buf_size

pub length-ring_slice :
    (buf : List ℕ) (h n : ℕ) → h ≤ length buf → n ≤ length buf → length (ring_slice buf h n) ≡ n
unfolding ring_slice
length-ring_slice buf h n p q = omega (
  arith,
  length-append (take n (drop h buf)) (take (n - (length buf - h)) buf),
  length-take n (drop h buf),
  length-drop h buf,
  length-take (n - (length buf - h)) buf,
)

-- The two parts of a slice that ends before the end of the block, and of one that goes round.
pub ring_slice_near :
    (buf : List ℕ) (h n : ℕ) → h + n ≤ length buf → ring_slice buf h n ≡ take n (drop h buf)
unfolding ring_slice
ring_slice_near buf h n p =
    let e : n - (length buf - h) ≡ 0 = omega arith in rw (e, append-nil) refl

pub ring_slice_far :
    (buf : List ℕ) (h n : ℕ)
    → h ≤ length buf
    → length buf ≤ h + n
    → ring_slice buf h n ≡ drop h buf ++ take (h + n - length buf) buf
unfolding ring_slice
ring_slice_far buf h n p q =
    let e : n - (length buf - h) ≡ h + n - length buf = omega arith in
    let all : take n (drop h buf) ≡ drop h buf =
      take_all n (drop h buf) (omega (arith, length-drop h buf)) in
    rw (e, all) refl

pub take-ring_slice :
    (buf : List ℕ) (h m n : ℕ)
    → h ≤ length buf
    → m ≤ n
    → take m (ring_slice buf h n) ≡ ring_slice buf h m
unfolding ring_slice
take-ring_slice buf h m n p q =
    let front : min m n ≡ m = omega arith in
    let back : min (m - length (take n (drop h buf))) (n - (length buf - h))
        ≡ m - (length buf - h) =
      omega (arith, length-take n (drop h buf), length-drop h buf) in
    rw (take-append m (take n (drop h buf)), take-take m n, take-take, front, back) refl

mod_below : (a n : ℕ) → a < n → a % n ≡ a
mod_below a n h = mod-eq_of_lt h

mod_past : (a n : ℕ) → n ≤ a → a < n + n → a % n ≡ a - n
mod_past a n h k = mod-eq-sub-mod {n = a} {m = n} h ∙ mod-eq_of_lt (omega arith)

pub drop-ring_slice :
    (buf : List ℕ) (h m n : ℕ)
    → h < length buf
    → m ≤ n
    → n ≤ length buf
    → drop m (ring_slice buf h n) ≡ ring_slice buf ((h + m) % length buf) (n - m)
unfolding ring_slice
drop-ring_slice buf h m n p q r = elim (dec_lt (h + m) (length buf)) [
  | yes near ↦
      let none_left : m - length (take n (drop h buf)) ≡ 0 =
        omega (arith, length-take n (drop h buf), length-drop h buf) in
      let rest : n - (length buf - h) ≡ n - m - (length buf - (h + m)) = omega arith in
      rw
        (
          mod_below (h + m) (length buf) near,
          drop-append m (take n (drop h buf)),
          drop-take m n,
          drop-drop m h,
          none_left,
          rest,
        )
        refl
  | no far ↦
      let g : ℕ = h + m - length buf in
      let cut : m - length (take n (drop h buf)) ≡ g =
        omega (arith, length-take n (drop h buf), length-drop h buf) in
      let rest : n - (length buf - h) - g ≡ n - m = omega arith in
      let round : n - m - (length buf - g) ≡ 0 = omega arith in
      rw
        (
          mod_past (h + m) (length buf) (omega arith) (omega arith),
          drop-append m (take n (drop h buf)),
          drop-take m n,
          drop-drop m h,
          cut,
          drop-take g,
          rest,
          round,
          append-nil,
          drop_all (h + m) buf (omega arith),
          take-nil (n - m),
        )
        refl
]

-- Bytes written right behind the slice, without passing the end of the block, extend it.
pub ring_slice-copy_at :
    (buf : List ℕ) (h n t : ℕ) (ys : List ℕ)
    → h < length buf
    → n + length ys ≤ length buf
    → t ≡ (h + n) % length buf
    → t + length ys ≤ length buf
    → ring_slice (copy_at buf t ys) h (n + length ys) ≡ ring_slice buf h n ++ ys
ring_slice-copy_at buf h n t ys p q r s = elim (dec_lt (h + n) (length buf)) [
  | yes near ↦
      let at : t ≡ h + n = r ∙ mod_below (h + n) (length buf) near in
      let off : t - h ≡ n = omega arith in
      let long : length (copy_at buf t ys) ≡ length buf = length-copy_at buf t ys in
      rw
        (
          ring_slice_near (copy_at buf t ys) h (n + length ys) (omega arith),
          ring_slice_near buf h n (omega arith),
          drop-copy_at_before h buf t ys (omega arith),
          off,
        )
        (take-copy_at (drop h buf) n ys (omega (arith, length-drop h buf)))
  | no far ↦
      let at : t ≡ h + n - length buf =
        r ∙ mod_past (h + n) (length buf) (omega arith) (omega arith) in
      let long : length (copy_at buf t ys) ≡ length buf = length-copy_at buf t ys in
      let upto : h + (n + length ys) - length (copy_at buf t ys) ≡ t + length ys = omega arith in
      rw
        (
          ring_slice_far (copy_at buf t ys) h (n + length ys) (omega arith) (omega arith),
          ring_slice_far buf h n (omega arith) (omega arith),
          drop-copy_at_after h buf t ys (omega arith),
          upto,
          take-copy_at buf t ys s,
          ← at,
          append_assoc,
        )
        refl
]
