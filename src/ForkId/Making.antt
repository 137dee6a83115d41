-- ===== src/ForkId/Making.antt =====
-- `make_forkid`: the passed forks are hashed, and the next one is named.
use trinity.Prelude.{
  ℕ, suc, ◌^◌, ◌<◌, ◌≡◌, refl, ap, ◌∙◌, List, [], ◌∷◌, ◌++◌, arith, ltb, Bool-cases, inl, inr,
}
use trinity.Prelude.Exec.{ok}
use trinity.Prelude.Bytes.{
  Bytes, AllBelow, big_endian, to_bytes_fits, crc32, crc32-lt, crc32-append, big_endian-AllBelow,
  append-AllBelow,
}
use trinity.ForkId.{new_fork_id, collect_passed, make_forkid}
use trinity.ForkId.Checksum.{checksum, fork_hash, checksum-lt, crc_to_bytes-ok}

-- The fork after the passed ones, 0 where there is none.
abbrev pub Upcoming : ℕ → List ℕ → ℕ → Type 0
Upcoming head [] next = next ≡ 0
Upcoming head (b ∷ rest) next = (next ≡ b) × (head < b)

-- The fork blocks up to the first one that is after `head`.
pub record IsSplit (head : ℕ) (blocks passed rest : List ℕ) (next : ℕ) : Type 0 where
  pub whole : blocks ≡ passed ++ rest
  pub reached : AllBelow (suc head) passed
  pub upcoming : Upcoming head rest next

abbrev Collected : ℕ → List ℕ → Bytes → Type 0
Collected head blocks pre =
    (passed : List ℕ) × (rest : List ℕ) × (next : ℕ) × (all : Bytes) × IsSplit head blocks passed
      rest next
    × (collect_passed head blocks pre ≡ ok (all, next))
    × AllBelow 256 all
    × (crc32 all 0 ≡ checksum (crc32 pre 0) passed)

collect_passed_lem :
    (head : ℕ) (blocks : List ℕ) (pre : Bytes)
    → AllBelow (2 ^ 64) blocks
    → AllBelow 256 pre
    → Collected head blocks pre
unfolding collect_passed
collect_passed_lem head [] pre fits bytes =
    ([], [], 0, pre, record { whole = refl; reached = tt; upcoming = refl }, refl, bytes, refl)
collect_passed_lem head (b ∷ bs) pre fits bytes = elim (Bool-cases (ltb head b)) [
  | inl e ↦ (
    [],
    b ∷ bs,
    b,
    pre,
    record { whole = refl; reached = tt; upcoming = (refl, ground arith) },
    rw e refl,
    bytes,
    refl,
  )
  | inr e ↦
      let (passed, rest, next, all, s, run, good, same) =
        collect_passed_lem head bs (pre ++ big_endian 8 b) fits.1
          (append-AllBelow 256 pre (big_endian 8 b) bytes (big_endian-AllBelow 8 b)) in
      (
        b ∷ passed,
        rest,
        next,
        all,
        record {
          whole = ap (◌∷◌ b) s.whole;
          reached = (ground arith, s.reached);
          upcoming = s.upcoming;
        },
        rw (e, to_bytes_fits 8 b (omega arith)) run,
        good,
        same
            ∙ ap (λ z. checksum z passed) (crc32-append pre (big_endian 8 b) 0 bytes (omega arith)),
      )
]

-- For a genesis hash of bytes and fork blocks that fit in eight bytes `make_forkid` does not
-- raise. The fork blocks are split at the first one that is after the head: those before it are
-- hashed one after another on top of the genesis hash, and that one is announced, or 0.
pub make_forkid_lem :
    (genesis : Bytes) (head : ℕ) (blocks : List ℕ)
    → AllBelow 256 genesis
    → AllBelow (2 ^ 64) blocks
    → (passed : List ℕ) × (rest : List ℕ) × (next : ℕ) × IsSplit head blocks passed rest next
      × (make_forkid genesis head blocks
          ≡ ok (record { hash = fork_hash genesis passed; next = next }))
unfolding make_forkid new_fork_id
make_forkid_lem genesis head blocks bytes fits =
    let (passed, rest, next, all, s, run, good, same) =
      collect_passed_lem head blocks genesis fits bytes in
    let small = checksum-lt passed (crc32 genesis 0) (crc32-lt genesis 0 bytes (omega arith)) in
    (
      passed,
      rest,
      next,
      s,
      rw (run, same, crc_to_bytes-ok (checksum (crc32 genesis 0) passed) small) refl,
    )
