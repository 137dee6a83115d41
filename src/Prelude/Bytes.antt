-- ===== src/Prelude/Bytes.antt =====
-- Python's `int.to_bytes` and `binascii.crc32`. A byte is a number below 256.
use Prim.Native.Nat.{ℕ, zero, suc, ◌/◌, ◌%◌, ◌^◌, ◌<◌, bit_xor}
use mathlib.Core.Path.{◌≡◌, refl}
use mathlib.Core.List.{List, [], ◌∷◌, ◌++◌}
use mathlib.Core.Bool.{Bool, true, false, ◌&&◌}
use mathlib.Core.Logic.{◌↔◌}
use native.Mathlib.Omega.{arith}
use trinity.Prelude.Tests.{◌==◌, ltb, if◌then◌else◌}
use trinity.Prelude.Lists.{length, length-append}
use trinity.Prelude.Exec.{Result, ok, err, overflow_error}
use trinity.Prelude.Bits.{bit_xor-lt, bit_xor-bit_xor}

abbrev pub Bytes : Type 0
Bytes = List ℕ

abbrev pub AllBelow : ℕ → List ℕ → Type 0
AllBelow m [] = Unit
AllBelow m (x ∷ xs) = (x < m) × AllBelow m xs

pub append-AllBelow :
    (m : ℕ) (xs ys : List ℕ) → AllBelow m xs → AllBelow m ys → AllBelow m (xs ++ ys)
append-AllBelow m [] ys p q = q
append-AllBelow m (x ∷ xs) ys p q = (p.0, append-AllBelow m xs ys p.1 q)

-- The lowest `width` bytes, the highest first.
abbrev pub big_endian : ℕ → ℕ → Bytes
big_endian zero n = []
big_endian (suc width) n = big_endian width (n / 256) ++ n % 256 ∷ []

-- `n.to_bytes(width, 'big')`
unfoldable pub to_bytes : ℕ → ℕ → Result Bytes
to_bytes width n = if ltb n (256 ^ width) then ok (big_endian width n) else err overflow_error

pub to_bytes_fits : (width n : ℕ) → n < 256 ^ width → to_bytes width n ≡ ok (big_endian width n)
unfolding to_bytes
to_bytes_fits width n h = ground arith

pub length-big_endian : (width n : ℕ) → length (big_endian width n) ≡ width
length-big_endian zero n = refl
length-big_endian (suc width) n = omega (
  arith,
  length-append (big_endian width (n / 256)) (n % 256 ∷ []),
  length-big_endian width (n / 256),
)

pub big_endian-AllBelow : (width n : ℕ) → AllBelow 256 (big_endian width n)
big_endian-AllBelow zero n = tt
big_endian-AllBelow (suc width) n =
    append-AllBelow 256 (big_endian width (n / 256)) (n % 256 ∷ [])
      (big_endian-AllBelow width (n / 256)) (omega arith, tt)

abbrev pub equal_bytes : Bytes → Bytes → Bool
equal_bytes [] [] = true
equal_bytes [] (y ∷ ys) = false
equal_bytes (x ∷ xs) [] = false
equal_bytes (x ∷ xs) (y ∷ ys) = (x == y) && equal_bytes xs ys

pub equal_bytes_iff : (xs ys : Bytes) → (equal_bytes xs ys ≡ true) ↔ (xs ≡ ys)
equal_bytes_iff [] [] = ground arith
equal_bytes_iff [] (y ∷ ys) = ground arith
equal_bytes_iff (x ∷ xs) [] = ground arith
equal_bytes_iff (x ∷ xs) (y ∷ ys) = ground (arith, equal_bytes_iff xs ys)

-- 0xEDB88320, the polynomial with its lowest bit first.
abbrev polynomial : ℕ
polynomial = 3988292384

-- 0xFFFFFFFF
abbrev mask : ℕ
mask = 4294967295

crc_bit : ℕ → ℕ
crc_bit c = if c % 2 == 1 then bit_xor (c / 2) polynomial else c / 2

crc_bits : ℕ → ℕ → ℕ
unfolding crc_bit
crc_bits zero c = c
crc_bits (suc n) c = crc_bits n (crc_bit c)

crc_bytes : ℕ → Bytes → ℕ
unfolding crc_bits
crc_bytes c [] = c
crc_bytes c (x ∷ xs) = crc_bytes (crc_bits 8 (bit_xor c x)) xs

-- `crc32(bytes, value)`, where `value` is below 2^32.
unfoldable pub crc32 : Bytes → ℕ → ℕ
unfolding crc_bytes
crc32 bytes value = bit_xor (crc_bytes (bit_xor value mask) bytes) mask

check_value : crc32 (49 ∷ 50 ∷ 51 ∷ 52 ∷ 53 ∷ 54 ∷ 55 ∷ 56 ∷ 57 ∷ []) 0 ≡ 3421780262
unfolding crc32
check_value = refl

crc_bit-lt : (c : ℕ) → c < 2 ^ 32 → crc_bit c < 2 ^ 32
unfolding crc_bit
crc_bit-lt c h = ground (arith, bit_xor-lt 32 (c / 2) polynomial)

crc_bits-lt : (n c : ℕ) → c < 2 ^ 32 → crc_bits n c < 2 ^ 32
unfolding crc_bits
crc_bits-lt zero c h = h
crc_bits-lt (suc n) c h = crc_bits-lt n (crc_bit c) (crc_bit-lt c h)

crc_bytes-lt : (xs : Bytes) (c : ℕ) → AllBelow 256 xs → c < 2 ^ 32 → crc_bytes c xs < 2 ^ 32
unfolding crc_bytes
crc_bytes-lt [] c b h = h
crc_bytes-lt (x ∷ xs) c b h =
    crc_bytes-lt xs (crc_bits 8 (bit_xor c x)) b.1
      (crc_bits-lt 8 (bit_xor c x) (bit_xor-lt 32 c x h (omega arith)))

pub crc32-lt : (xs : Bytes) (v : ℕ) → AllBelow 256 xs → v < 2 ^ 32 → crc32 xs v < 2 ^ 32
unfolding crc32
crc32-lt xs v b h =
    bit_xor-lt 32 (crc_bytes (bit_xor v mask) xs) mask
      (crc_bytes-lt xs (bit_xor v mask) b (bit_xor-lt 32 v mask h (omega arith))) (omega arith)

crc_bytes-append : (xs ys : Bytes) (c : ℕ) → crc_bytes c (xs ++ ys) ≡ crc_bytes (crc_bytes c xs) ys
unfolding crc_bytes
crc_bytes-append [] ys c = refl
crc_bytes-append (x ∷ xs) ys c = crc_bytes-append xs ys (crc_bits 8 (bit_xor c x))

-- The checksum of a concatenation goes on from the checksum of its first part.
pub crc32-append :
    (xs ys : Bytes) (v : ℕ)
    → AllBelow 256 xs
    → v < 2 ^ 32
    → crc32 (xs ++ ys) v ≡ crc32 ys (crc32 xs v)
unfolding crc32
crc32-append xs ys v b h =
    let c = bit_xor v mask in
    let small = crc_bytes-lt xs c b (bit_xor-lt 32 v mask h (omega arith)) in
    rw (crc_bytes-append xs ys c, bit_xor-bit_xor 32 (crc_bytes c xs) mask small (omega arith)) refl
