-- ===== src/ForkId/Checksum.antt =====
-- The checksum of a chain of forks, which both `make_forkid` and `validate_forkid` compute.
use trinity.Prelude.{
  ℕ, ◌^◌, ◌<◌, ◌≡◌, refl, ap, List, [], ◌∷◌, ◌++◌, arith, length, take, drop, get_elem?, some,
}
use trinity.Prelude.Exec.{ok}
use trinity.Prelude.Bytes.{
  Bytes, AllBelow, big_endian, to_bytes_fits, crc32, crc32-lt, big_endian-AllBelow,
}
use trinity.ForkId.{crc_to_bytes, more_checksums}

-- Every fork block goes into the checksum as eight bytes.
abbrev pub checksum : ℕ → List ℕ → ℕ
checksum c [] = c
checksum c (b ∷ bs) = checksum (crc32 (big_endian 8 b) c) bs

-- The hash that EIP-2124 gives to a chain whose passed forks are `passed`.
abbrev pub fork_hash : Bytes → List ℕ → Bytes
fork_hash genesis passed = big_endian 4 (checksum (crc32 genesis 0) passed)

-- The checksums before each of the forks, and the one after them all.
abbrev pub before_each : ℕ → List ℕ → List ℕ
before_each c [] = []
before_each c (b ∷ bs) = c ∷ before_each (crc32 (big_endian 8 b) c) bs

abbrev pub checksums : ℕ → List ℕ → List ℕ
checksums c [] = c ∷ []
checksums c (b ∷ bs) = c ∷ checksums (crc32 (big_endian 8 b) c) bs

pub checksum-lt : (bs : List ℕ) (c : ℕ) → c < 2 ^ 32 → checksum c bs < 2 ^ 32
checksum-lt [] c h = h
checksum-lt (b ∷ bs) c h =
    checksum-lt bs (crc32 (big_endian 8 b) c)
      (crc32-lt (big_endian 8 b) c (big_endian-AllBelow 8 b) h)

pub crc_to_bytes-ok : (c : ℕ) → c < 2 ^ 32 → crc_to_bytes c ≡ ok (big_endian 4 c)
unfolding crc_to_bytes
crc_to_bytes-ok c h = to_bytes_fits 4 c (omega arith)

pub more_checksums-ok :
    (bs : List ℕ) (c : ℕ) → AllBelow (2 ^ 64) bs → more_checksums c bs ≡ ok (checksums c bs)
unfolding more_checksums
more_checksums-ok [] c h = refl
more_checksums-ok (b ∷ bs) c h =
    rw (to_bytes_fits 8 b (omega arith), more_checksums-ok bs (crc32 (big_endian 8 b) c) h.1) refl

pub checksum-append : (xs ys : List ℕ) (c : ℕ) → checksum c (xs ++ ys) ≡ checksum (checksum c xs) ys
checksum-append [] ys c = refl
checksum-append (x ∷ xs) ys c = checksum-append xs ys (crc32 (big_endian 8 x) c)

-- The lists of `validate_forkid` at the number of the passed forks.
pub take-checksums :
    (xs ys : List ℕ) (c : ℕ) → take (length xs) (checksums c (xs ++ ys)) ≡ before_each c xs
take-checksums [] ys c = refl
take-checksums (x ∷ xs) ys c = ap (◌∷◌ c) (take-checksums xs ys (crc32 (big_endian 8 x) c))

pub drop-checksums :
    (xs ys : List ℕ) (c : ℕ)
    → drop (length xs) (checksums c (xs ++ ys)) ≡ checksums (checksum c xs) ys
drop-checksums [] ys c = refl
drop-checksums (x ∷ xs) ys c = drop-checksums xs ys (crc32 (big_endian 8 x) c)

pub get_elem?-checksums :
    (xs ys : List ℕ) (c : ℕ) → get_elem? (checksums c (xs ++ ys)) (length xs) ≡ some (checksum c xs)
get_elem?-checksums [] [] c = refl
get_elem?-checksums [] (y ∷ ys) c = refl
get_elem?-checksums (x ∷ xs) ys c = get_elem?-checksums xs ys (crc32 (big_endian 8 x) c)

pub take-append : (xs ys : List ℕ) → take (length xs) (xs ++ ys) ≡ xs
take-append [] ys = refl
take-append (x ∷ xs) ys = ap (◌∷◌ x) (take-append xs ys)
