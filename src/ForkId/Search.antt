-- ===== src/ForkId/Search.antt =====
-- The three loops of `validate_forkid`: what each of them finds.
use trinity.Prelude.{
  ℕ, ◌^◌, ◌<◌, ◌≡◌, ◌≢◌, ◌⊎◌, refl, ap, sym, ◌∙◌, List, [], ◌∷◌, ◌++◌, ◌==◌, Bool-cases, true,
  false, inl, inr, not, some, none,
}
use trinity.Prelude.Exec.{Result, ok, remote_chain_is_stale}
use trinity.Prelude.Fallible.{raise_if}
use trinity.Prelude.Bytes.{
  Bytes, big_endian, crc32, crc32-lt, big_endian-AllBelow, equal_bytes, equal_bytes_iff,
}
use trinity.ForkId.{ForkId, check_subset, check_superset}
use trinity.ForkId.Checksum.{checksum, checksums, before_each, crc_to_bytes-ok}

abbrev pub crc_step : ℕ → ℕ → ℕ
crc_step c b = crc32 (big_endian 8 b) c

step-lt : (c b : ℕ) → c < 2 ^ 32 → crc_step c b < 2 ^ 32
step-lt c b h = crc32-lt (big_endian 8 b) c (big_endian-AllBelow 8 b) h

pub same_hash : (xs ys : Bytes) → equal_bytes xs ys ≡ true → xs ≡ ys
same_hash xs ys e = (equal_bytes_iff xs ys).0 e

pub other_hash : (xs ys : Bytes) → equal_bytes xs ys ≡ false → xs ≢ ys
other_hash xs ys e same = let t = (equal_bytes_iff xs ys).1 same in cc

cons_inj : (x y : ℕ) (xs ys : List ℕ) → x ∷ xs ≡ y ∷ ys → (y ≡ x) × (xs ≡ ys)
cons_inj x y xs ys e = (cc, cc)

-- No chain that stops before one of the forks in `bs` has the hash.
abbrev pub NoneBefore : Bytes → ℕ → List ℕ → Type 0
NoneBefore hash c bs =
    (q : List ℕ) (b : ℕ) (q' : List ℕ) → bs ≡ q ++ b ∷ q' → big_endian 4 (checksum c q) ≢ hash

-- No chain that goes on with some of the forks in `bs`, or none, has the hash.
abbrev pub NoneAmong : Bytes → ℕ → List ℕ → Type 0
NoneAmong hash c bs = (q q' : List ℕ) → bs ≡ q ++ q' → big_endian 4 (checksum c q) ≢ hash

NoneBefore-cons :
    (hash : Bytes) (c b : ℕ) (bs : List ℕ)
    → big_endian 4 c ≢ hash
    → NoneBefore hash (crc_step c b) bs
    → NoneBefore hash c (b ∷ bs)
NoneBefore-cons hash c b bs ne rest [] d q' e same = ne same
NoneBefore-cons hash c b bs ne rest (y ∷ q) d q' e same =
    let (x, z) = cons_inj b y bs (q ++ d ∷ q') e in
    rest q d q' z (ap (λ u. big_endian 4 (checksum (crc_step c u) q)) (sym x) ∙ same)

NoneAmong-cons :
    (hash : Bytes) (c b : ℕ) (bs : List ℕ)
    → big_endian 4 c ≢ hash
    → NoneAmong hash (crc_step c b) bs
    → NoneAmong hash c (b ∷ bs)
NoneAmong-cons hash c b bs ne rest [] q' e same = ne same
NoneAmong-cons hash c b bs ne rest (y ∷ q) q' e same =
    let (x, z) = cons_inj b y bs (q ++ q') e in
    rest q q' z (ap (λ u. big_endian 4 (checksum (crc_step c u) q)) (sym x) ∙ same)

NoneAmong-end : (hash : Bytes) (c : ℕ) → big_endian 4 c ≢ hash → NoneAmong hash c []
NoneAmong-end hash c ne [] q' e same = ne same
NoneAmong-end hash c ne (y ∷ q) q' e same = cc

module _ (forkid : ForkId) where
  abbrev pub stale_unless : ℕ → Result {0} Unit
  stale_unless b = raise_if remote_chain_is_stale (not (b == forkid.next))

  abbrev pub SubsetOutcome : ℕ → List ℕ → Type 0
  SubsetOutcome c bs =
      ((q : List ℕ) × (b : ℕ) × (q' : List ℕ) × (bs ≡ q ++ b ∷ q')
        × (big_endian 4 (checksum c q) ≡ forkid.hash)
        × (check_subset forkid bs (before_each c bs) ≡ ok (some (stale_unless b))))
      ⊎ (NoneBefore forkid.hash c bs × (check_subset forkid bs (before_each c bs) ≡ ok none))

  pub check_subset_lem : (bs : List ℕ) (c : ℕ) → c < 2 ^ 32 → SubsetOutcome c bs
  unfolding check_subset
  check_subset_lem [] c h = inr (none, refl)
    where
      none : NoneBefore forkid.hash c []
      none [] d q' e same = cc
      none (y ∷ q) d q' e same = cc
  check_subset_lem (b ∷ bs) c h = elim (Bool-cases (equal_bytes (big_endian 4 c) forkid.hash)) [
    | inl e ↦ inl (
      [],
      b,
      bs,
      refl,
      same_hash (big_endian 4 c) forkid.hash e,
      rw (crc_to_bytes-ok c h, e) refl,
    )
    | inr e ↦ elim (check_subset_lem bs (crc_step c b) (step-lt c b h)) [
      | inl (q, d, q', whole, same, run) ↦
          inl (b ∷ q, d, q', ap (◌∷◌ b) whole, same, rw (crc_to_bytes-ok c h, e) run)
      | inr (ne, run) ↦ inr (
        NoneBefore-cons forkid.hash c b bs (other_hash (big_endian 4 c) forkid.hash e) ne,
        rw (crc_to_bytes-ok c h, e) run,
      )
    ]
  ]

  abbrev pub SupersetOutcome : ℕ → List ℕ → Type 0
  SupersetOutcome c bs =
      ((q : List ℕ) × (q' : List ℕ) × (bs ≡ q ++ q')
        × (big_endian 4 (checksum c q) ≡ forkid.hash)
        × (check_superset forkid (checksums c bs) ≡ ok true))
      ⊎ (NoneAmong forkid.hash c bs × (check_superset forkid (checksums c bs) ≡ ok false))

  pub check_superset_lem : (bs : List ℕ) (c : ℕ) → c < 2 ^ 32 → SupersetOutcome c bs
  unfolding check_superset
  check_superset_lem [] c h = elim (Bool-cases (equal_bytes (big_endian 4 c) forkid.hash)) [
    | inl e ↦
        inl
          ([], [], refl, same_hash (big_endian 4 c) forkid.hash e, rw (crc_to_bytes-ok c h, e) refl)
    | inr e ↦ inr (
      NoneAmong-end forkid.hash c (other_hash (big_endian 4 c) forkid.hash e),
      rw (crc_to_bytes-ok c h, e) refl,
    )
  ]
  check_superset_lem (b ∷ bs) c h = elim (Bool-cases (equal_bytes (big_endian 4 c) forkid.hash)) [
    | inl e ↦ inl (
      [],
      b ∷ bs,
      refl,
      same_hash (big_endian 4 c) forkid.hash e,
      rw (crc_to_bytes-ok c h, e) refl,
    )
    | inr e ↦ elim (check_superset_lem bs (crc_step c b) (step-lt c b h)) [
      | inl (q, q', whole, same, run) ↦
          inl (b ∷ q, q', ap (◌∷◌ b) whole, same, rw (crc_to_bytes-ok c h, e) run)
      | inr (ne, run) ↦ inr (
        NoneAmong-cons forkid.hash c b bs (other_hash (big_endian 4 c) forkid.hash e) ne,
        rw (crc_to_bytes-ok c h, e) run,
      )
    ]
  ]
