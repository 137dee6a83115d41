-- ===== src/Prelude/Bits.antt =====
-- Exclusive or by its lowest digit, and Python's `int.bit_length`.
use Prim.Native.Nat.{
  ℕ, zero, suc, ◌+◌, ◌-◌, ◌*◌, ◌/◌, ◌%◌, ◌^◌, ◌≤◌, ◌<◌, bit_xor, bit_xor-bitwise, differ, digits,
}
use mathlib.Core.Path.{◌≡◌, refl, sym, ap, ◌∙◌, subst}
use mathlib.Core.Logic.{inl, inr}
use native.Mathlib.Nat.{zero-add, suc-add, le_refl, pow-suc}
use native.Mathlib.Decide.{dec_lt}
use native.Mathlib.Omega.{arith}
use trinity.Prelude.Tests.{◌==◌, if◌then◌else◌, Bool-cases}

abbrev xor_digits : ℕ → ℕ → ℕ → ℕ
xor_digits fuel x y = digits (λ rest. rest) differ fuel x y

-- A number has no more digits than its value, so fuel beyond that is not used.
spare_fuel : (fuel x y : ℕ) → x ≤ fuel → xor_digits (suc fuel) x y ≡ xor_digits fuel x y
spare_fuel zero zero y le = refl
spare_fuel zero (suc x) y le = absurd (omega arith)
spare_fuel (suc fuel) zero y le = refl
spare_fuel (suc fuel) (suc x) y le =
    omega (arith, spare_fuel fuel (suc x / 2) (y / 2) (omega arith))

spare_fuels : (more x y : ℕ) → xor_digits (more + x) x y ≡ xor_digits x x y
spare_fuels zero x y = rw zero-add
spare_fuels (suc more) x y =
    rw suc-add (spare_fuel (more + x) x y (omega arith) ∙ spare_fuels more x y)

pub bit_xor_step : (x y : ℕ) → bit_xor x y ≡ bit_xor (x / 2) (y / 2) * 2 + differ (x % 2) (y % 2)
bit_xor_step zero y = simp bit_xor-bitwise (omega arith)
bit_xor_step (suc x) y =
    let half = suc x / 2 in
    let enough : x - half + half ≡ x = omega arith in
    let same : xor_digits x half (y / 2) ≡ xor_digits half half (y / 2) =
      subst (λ fuel. xor_digits fuel half (y / 2) ≡ xor_digits half half (y / 2)) enough
        (spare_fuels (x - half) half (y / 2)) in
    simp bit_xor-bitwise (omega (arith, same))

differ-lt : (x y : ℕ) → x < 2 → y < 2 → differ x y < 2
differ-lt zero y p q = q
differ-lt (suc x) zero p q = p
differ-lt (suc x) (suc y) p q = differ-lt x y (omega arith) (omega arith)

eq_of_differ : (x y : ℕ) → differ x y ≡ 0 → x ≡ y
eq_of_differ zero y h = sym h
eq_of_differ (suc x) zero h = h
eq_of_differ (suc x) (suc y) h = ap suc (eq_of_differ x y h)

differ_self : (x : ℕ) → differ x x ≡ 0
differ_self zero = refl
differ_self (suc x) = differ_self x

differ_comm : (x y : ℕ) → differ x y ≡ differ y x
differ_comm zero zero = refl
differ_comm zero (suc y) = refl
differ_comm (suc x) zero = refl
differ_comm (suc x) (suc y) = differ_comm x y

-- The laws hold below every power of two; the last bit falls off at each step.
half-lt : (k a : ℕ) → a < 2 ^ suc k → a / 2 < 2 ^ k
half-lt k a p = omega (arith, pow-suc 2 k)

pub bit_xor-lt : (k a b : ℕ) → a < 2 ^ k → b < 2 ^ k → bit_xor a b < 2 ^ k
bit_xor-lt zero zero zero p q = omega arith
bit_xor-lt zero zero (suc b) p q = absurd (omega arith)
bit_xor-lt zero (suc a) b p q = absurd (omega arith)
bit_xor-lt (suc k) a b p q = omega (
  arith,
  bit_xor_step a b,
  pow-suc 2 k,
  differ-lt (a % 2) (b % 2) (omega arith) (omega arith),
  bit_xor-lt k (a / 2) (b / 2) (half-lt k a p) (half-lt k b q),
)

pub eq_of_bit_xor : (k a b : ℕ) → a < 2 ^ k → b < 2 ^ k → bit_xor a b ≡ 0 → a ≡ b
eq_of_bit_xor zero a b p q h = omega arith
eq_of_bit_xor (suc k) a b p q h =
    let high : a / 2 ≡ b / 2 =
      eq_of_bit_xor k (a / 2) (b / 2) (half-lt k a p) (half-lt k b q)
        (omega (arith, bit_xor_step a b)) in
    let low : a % 2 ≡ b % 2 = eq_of_differ (a % 2) (b % 2) (omega (arith, bit_xor_step a b)) in
    omega arith

pub bit_xor_comm : (k a b : ℕ) → a < 2 ^ k → b < 2 ^ k → bit_xor a b ≡ bit_xor b a
bit_xor_comm zero zero zero p q = refl
bit_xor_comm zero zero (suc b) p q = absurd (omega arith)
bit_xor_comm zero (suc a) b p q = absurd (omega arith)
bit_xor_comm (suc k) a b p q = omega (
  arith,
  bit_xor_step a b,
  bit_xor_step b a,
  bit_xor_comm k (a / 2) (b / 2) (half-lt k a p) (half-lt k b q),
  differ_comm (a % 2) (b % 2),
)

differ-differ : (x y : ℕ) → x < 2 → y < 2 → differ (differ x y) y ≡ x
differ-differ zero y p q = differ_self y
differ-differ (suc zero) zero p q = refl
differ-differ (suc zero) (suc zero) p q = refl
differ-differ (suc zero) (suc (suc y)) p q = absurd (omega arith)
differ-differ (suc (suc x)) y p q = absurd (omega arith)

-- The same mask twice is no mask.
pub bit_xor-bit_xor : (k a b : ℕ) → a < 2 ^ k → b < 2 ^ k → bit_xor (bit_xor a b) b ≡ a
bit_xor-bit_xor zero zero zero p q = refl
bit_xor-bit_xor zero zero (suc b) p q = absurd (omega arith)
bit_xor-bit_xor zero (suc a) b p q = absurd (omega arith)
bit_xor-bit_xor (suc k) a b p q =
    let x = bit_xor a b in
    let small = differ-lt (a % 2) (b % 2) (omega arith) (omega arith) in
    let high : x / 2 ≡ bit_xor (a / 2) (b / 2) = omega (arith, bit_xor_step a b) in
    let low : x % 2 ≡ differ (a % 2) (b % 2) = omega (arith, bit_xor_step a b) in
    let same_high : bit_xor (x / 2) (b / 2) ≡ a / 2 =
      ap (λ z. bit_xor z (b / 2)) high
      ∙ bit_xor-bit_xor k (a / 2) (b / 2) (half-lt k a p) (half-lt k b q) in
    let same_low : differ (x % 2) (b % 2) ≡ a % 2 =
      ap (λ z. differ z (b % 2)) low ∙ differ-differ (a % 2) (b % 2) (omega arith) (omega arith) in
    omega (arith, bit_xor_step x b)

-- The loop halves until nothing is left; the number itself is fuel enough.
bit_length_loop : ℕ → ℕ → ℕ
bit_length_loop zero n = 0
bit_length_loop (suc f) n = let rest = suc (bit_length_loop f (n / 2)) in if n == 0 then 0 else rest

unfoldable pub bit_length : ℕ → ℕ
unfolding bit_length_loop
bit_length n = bit_length_loop n n

bit_length_loop-zero : (f : ℕ) → bit_length_loop f 0 ≡ 0
unfolding bit_length_loop
bit_length_loop-zero zero = refl
bit_length_loop-zero (suc f) = refl

loop_upper : (f n : ℕ) → n ≤ f → n < 2 ^ bit_length_loop f n
unfolding bit_length_loop
loop_upper zero n h = omega arith
loop_upper (suc f) n h = elim (Bool-cases (n == 0)) [
  | inl e ↦ rw e (ground arith)
  | inr e ↦ rw e (ground (arith, pow-suc 2 (bit_length_loop f (n / 2)), loop_upper f (n / 2)))
]

loop_lower : (f n : ℕ) → n ≤ f → 0 < n → 2 ^ bit_length_loop f n ≤ 2 * n
unfolding bit_length_loop
loop_lower zero n h p = absurd (omega arith)
loop_lower (suc f) n h p = elim (dec_lt 0 (n / 2)) [
  | yes q ↦
      ground (arith, pow-suc 2 (bit_length_loop f (n / 2)), loop_lower f (n / 2) (omega arith) q)
  | no q ↦
      let e : n / 2 ≡ 0 = omega arith in
      let m : n ≡ 1 = omega arith in rw (m, bit_length_loop-zero) (omega arith)
]

-- `bit_length n` is the least number of bits that holds `n`.
pub bit_length_upper : (n : ℕ) → n < 2 ^ bit_length n
unfolding bit_length
bit_length_upper n = loop_upper n n (le_refl n)

pub bit_length_lower : (n : ℕ) → 0 < n → 2 ^ bit_length n ≤ 2 * n
unfolding bit_length
bit_length_lower n p = loop_lower n n (le_refl n) p

bit_length_loop-le : (k f n : ℕ) → n < 2 ^ k → bit_length_loop f n ≤ k
unfolding bit_length_loop
bit_length_loop-le k zero n h = omega arith
bit_length_loop-le zero (suc f) n h = ground arith
bit_length_loop-le (suc k) (suc f) n h =
    ground (arith, bit_length_loop-le k f (n / 2) (half-lt k n h))

pub bit_length-le : (k n : ℕ) → n < 2 ^ k → bit_length n ≤ k
unfolding bit_length
bit_length-le k n h = bit_length_loop-le k n n h

bit_length_loop-pos : (f n : ℕ) → 0 < n → n ≤ f → 0 < bit_length_loop f n
unfolding bit_length_loop
bit_length_loop-pos zero n p h = absurd (omega arith)
bit_length_loop-pos (suc f) n p h = ground arith

pub bit_length-pos : (n : ℕ) → 0 < n → 0 < bit_length n
unfolding bit_length
bit_length-pos n p = bit_length_loop-pos n n p (le_refl n)
