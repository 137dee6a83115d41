-- ===== src/Transport/Slices.antt =====
-- Slices of byte strings, padding, and the integers in a frame's header.
use trinity.Prelude.{
  ℕ, zero, suc, ◌+◌, ◌-◌, ◌%◌, ◌^◌, ◌<◌, ◌≤◌, ◌≡◌, ◌∙◌, refl, sym, ap, true, [], ◌∷◌, ◌++◌, length,
  length-append, length-replicate, take, drop, replicate, arith,
}
use mathlib.Core.List.{append-nil}
use trinity.Prelude.Bytes.{Bytes, big_endian, equal_bytes, equal_bytes_iff}
use trinity.Prelude.Exec.{ok}
use trinity.Transport.Frames.{roundup_16, sxor, xor_bytes, padded, from_big_endian}

pub take-append : (n : ℕ) (xs ys : Bytes) → length xs ≡ n → take n (xs ++ ys) ≡ xs
take-append zero [] ys h = refl
take-append zero (x ∷ xs) ys h = absurd (omega arith)
take-append (suc n) [] ys h = absurd (omega arith)
take-append (suc n) (x ∷ xs) ys h = ap (◌∷◌ x) (take-append n xs ys (omega arith))

pub drop-append : (n : ℕ) (xs ys : Bytes) → length xs ≡ n → drop n (xs ++ ys) ≡ ys
drop-append zero [] ys h = refl
drop-append zero (x ∷ xs) ys h = absurd (omega arith)
drop-append (suc n) [] ys h = absurd (omega arith)
drop-append (suc n) (x ∷ xs) ys h = drop-append n xs ys (omega arith)

pub take_all : (n : ℕ) (xs : Bytes) → length xs ≡ n → take n xs ≡ xs
take_all n xs h = ap (take n) (sym (append-nil xs)) ∙ take-append n xs [] h

pub length-take_le : (n : ℕ) (xs : Bytes) → n ≤ length xs → length (take n xs) ≡ n
length-take_le zero xs h = refl
length-take_le (suc n) [] h = absurd (omega arith)
length-take_le (suc n) (x ∷ xs) h = ap suc (length-take_le n xs (omega arith))

pub sxor_same_length : (xs ys : Bytes) → length xs ≡ length ys → sxor xs ys ≡ ok (xor_bytes xs ys)
unfolding sxor
sxor_same_length xs ys h = ground arith

pub roundup_16_lem :
    (n : ℕ) → (n ≤ roundup_16 n) × (roundup_16 n < n + 16) × (roundup_16 n % 16 ≡ 0)
unfolding roundup_16
roundup_16_lem n = ground arith

pub length-padded : (xs : Bytes) → length (padded xs) ≡ roundup_16 (length xs)
unfolding padded
length-padded xs =
    let fill = roundup_16 (length xs) - length xs in
    omega (
      arith,
      length-append xs (replicate fill 0),
      length-replicate {A = ℕ} fill 0,
      (roundup_16_lem (length xs)).0,
    )

pub take-padded : (n : ℕ) (xs : Bytes) → length xs ≡ n → take n (padded xs) ≡ xs
unfolding padded
take-padded n xs h = take-append n xs (replicate (roundup_16 (length xs) - length xs) 0) h

pub equal_bytes_self : (xs : Bytes) → equal_bytes xs xs ≡ true
equal_bytes_self xs = (equal_bytes_iff xs xs).1 refl

-- Three bytes give their number back.
pub from_big_endian-big_endian : (n : ℕ) → n < 256 ^ 3 → from_big_endian 0 (0 ∷ big_endian 3 n) ≡ n
from_big_endian-big_endian n h = omega arith
