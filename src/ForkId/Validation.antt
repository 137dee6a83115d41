-- ===== src/ForkId/Validation.antt =====
-- The rules of EIP-2124, for `validate_forkid`.
use mathlib.Core.List.{append_assoc}
use trinity.Prelude.{
  ℕ, suc, ◌+◌, ◌^◌, ◌<◌, ◌≤◌, ◌≡◌, ◌≢◌, ◌⊎◌, refl, ap, sym, ◌∙◌, subst, List, [], ◌∷◌, ◌++◌, arith,
  length, ltb, leb, ◌==◌, Bool-cases, inl, inr, ◌&&◌,
}
use trinity.Prelude.Exec.{Result, ok, err, remote_chain_is_stale, local_chain_incompatible_or_stale}
use trinity.Prelude.Bytes.{Bytes, AllBelow, big_endian, crc32, crc32-lt, equal_bytes}
use trinity.ForkId.{
  ForkId, check_next, check_other_forks, check_at, find_fork, validate_forkid, maxsize,
}
use trinity.ForkId.Checksum.{
  checksum, checksums, fork_hash, checksum-lt, checksum-append, crc_to_bytes-ok, more_checksums-ok,
  take-checksums, drop-checksums, get_elem?-checksums, take-append,
}
use trinity.ForkId.Search.{
  NoneBefore, check_subset_lem, check_superset_lem, same_hash, other_hash, stale_unless,
}

-- The first of these forks is not passed: it is at the head or after it.
abbrev pub NotPassed : ℕ → List ℕ → Type 0
NotPassed head [] = Unit
NotPassed head (b ∷ rest) = head ≤ b

-- The validation rules of EIP-2124, for a local chain with the forks `passed` before the head.
pub data Verdict (forkid : ForkId) (genesis : Bytes) (head : ℕ) (passed rest : List ℕ)
    : Result {0} Unit → Type 0 where
  rule_1a :
      fork_hash genesis passed ≡ forkid.hash
      → 0 < forkid.next
      → forkid.next ≤ head
      → Verdict forkid genesis head passed rest (err local_chain_incompatible_or_stale)
  rule_1b :
      fork_hash genesis passed ≡ forkid.hash
      → (forkid.next ≡ 0) ⊎ (head < forkid.next)
      → Verdict forkid genesis head passed rest (ok tt)
  rule_2 :
      (q : List ℕ) (b : ℕ) (q' : List ℕ)
      → fork_hash genesis passed ≢ forkid.hash
      → passed ≡ q ++ b ∷ q'
      → fork_hash genesis q ≡ forkid.hash
      → forkid.next ≡ b
      → Verdict forkid genesis head passed rest (ok tt)
  rule_2_stale :
      (q : List ℕ) (b : ℕ) (q' : List ℕ)
      → fork_hash genesis passed ≢ forkid.hash
      → passed ≡ q ++ b ∷ q'
      → fork_hash genesis q ≡ forkid.hash
      → forkid.next ≢ b
      → Verdict forkid genesis head passed rest (err remote_chain_is_stale)
  rule_3 :
      (q q' : List ℕ)
      → fork_hash genesis passed ≢ forkid.hash
      → NoneBefore forkid.hash (crc32 genesis 0) passed
      → rest ≡ q ++ q'
      → fork_hash genesis (passed ++ q) ≡ forkid.hash
      → Verdict forkid genesis head passed rest (ok tt)
  different_chains :
      NoneBefore forkid.hash (crc32 genesis 0) passed
      → ((q q' : List ℕ) → rest ≡ q ++ q' → fork_hash genesis (passed ++ q) ≢ forkid.hash)
      → Verdict forkid genesis head passed rest (err local_chain_incompatible_or_stale)

module _ (forkid : ForkId) (genesis : Bytes) (head : ℕ) where
  find_fork_lem :
      (passed : List ℕ) (x : ℕ) (xs : List ℕ) (i : ℕ) (all sums : List ℕ)
      → AllBelow head passed
      → head ≤ x
      → find_fork forkid head i (passed ++ x ∷ xs) all sums
        ≡ check_at forkid head (i + length passed) all sums
  unfolding find_fork
  find_fork_lem [] x xs i all sums below at = ground arith
  find_fork_lem (b ∷ bs) x xs i all sums below at =
      let same : suc i + length bs ≡ i + suc (length bs) = omega arith in
      ground (arith, find_fork_lem bs x xs (suc i) all sums)

  from_zero :
      (passed all sums : List ℕ)
      → check_at forkid head (0 + length passed) all sums
        ≡ check_at forkid head (length passed) all sums
  from_zero passed all sums = ap (λ i. check_at forkid head i all sums) (omega arith)

  -- What follows the passed forks is not passed, the sentinel included.
  find_fork_at :
      (passed rest all sums : List ℕ)
      → head ≤ maxsize
      → AllBelow head passed
      → NotPassed head rest
      → find_fork forkid head 0 (passed ++ (rest ++ maxsize ∷ [])) all sums
        ≡ check_at forkid head (length passed) all sums
  find_fork_at passed [] all sums h below at =
      find_fork_lem passed maxsize [] 0 all sums below h ∙ from_zero passed all sums
  find_fork_at passed (b ∷ rest) all sums h below at =
      find_fork_lem passed b (rest ++ maxsize ∷ []) 0 all sums below at ∙ from_zero passed all sums

  module _ (passed rest : List ℕ) where
    abbrev c : ℕ
    c = crc32 genesis 0

    abbrev all : List ℕ
    all = passed ++ (rest ++ maxsize ∷ [])

    abbrev sums : List ℕ
    sums = checksums c (passed ++ rest)

    -- What a run of the last two loops returns, with the rule that decided it.
    abbrev Decided : Result {0} Unit → Type 0
    Decided run =
        (verdict : Result {0} Unit) × (run ≡ verdict)
        × Verdict forkid genesis head passed rest verdict

    other_forks-Decided :
        c < 2 ^ 32
        → fork_hash genesis passed ≢ forkid.hash
        → Decided (check_other_forks forkid (length passed) all sums)
    unfolding check_other_forks
    other_forks-Decided small ne = elim (check_subset_lem forkid passed c small) [
      | inl (q, b, q', whole, same, run) ↦ (
        stale_unless forkid b,
        rw (take-append passed (rest ++ maxsize ∷ []), take-checksums passed rest c, run) refl,
        elim (Bool-cases (b == forkid.next)) [
          | inl e ↦ rw e (rule_2 q b q' ne whole same (ground arith))
          | inr e ↦ rw e (rule_2_stale q b q' ne whole same (ground arith))
        ],
      )
      | inr (before, run) ↦
          elim (check_superset_lem forkid rest (checksum c passed) (checksum-lt passed c small)) [
            | inl (q, q', whole, same, found) ↦ (
              ok tt,
              rw
                  (
                    take-append passed (rest ++ maxsize ∷ []),
                    take-checksums passed rest c,
                    run,
                    drop-checksums passed rest c,
                    found,
                  )
                  refl,
              rule_3 q q' ne before whole (ap (big_endian 4) (checksum-append passed q c) ∙ same),
            )
            | inr (after, found) ↦ (
              err local_chain_incompatible_or_stale,
              rw
                  (
                    take-append passed (rest ++ maxsize ∷ []),
                    take-checksums passed rest c,
                    run,
                    drop-checksums passed rest c,
                    found,
                  )
                  refl,
              different_chains before (λ q q' whole same.
                  after q q' whole (ap (big_endian 4) (sym (checksum-append passed q c)) ∙ same)),
            )
          ]
    ]

    check_next-Decided :
        fork_hash genesis passed ≡ forkid.hash → Decided (check_next head forkid.next)
    unfolding check_next
    check_next-Decided same = elim (Bool-cases (ltb 0 forkid.next && leb forkid.next head)) [
      | inl e ↦ (
        err local_chain_incompatible_or_stale,
        rw e refl,
        rule_1a same (ground arith) (ground arith),
      )
      | inr e ↦ (ok tt, rw e refl, rule_1b same (ground arith))
    ]

    check_at-Decided : c < 2 ^ 32 → Decided (check_at forkid head (length passed) all sums)
    unfolding check_at
    check_at-Decided small =
        elim (Bool-cases (equal_bytes (fork_hash genesis passed) forkid.hash)) [
          | inl e ↦
              let (verdict, run, how) =
                check_next-Decided (same_hash (fork_hash genesis passed) forkid.hash e) in
              (
                verdict,
                rw
                    (
                      get_elem?-checksums passed rest c,
                      crc_to_bytes-ok (checksum c passed) (checksum-lt passed c small),
                      e,
                    )
                    run,
                how,
              )
          | inr e ↦
              let (verdict, run, how) =
                other_forks-Decided small (other_hash (fork_hash genesis passed) forkid.hash e) in
              (
                verdict,
                rw
                    (
                      get_elem?-checksums passed rest c,
                      crc_to_bytes-ok (checksum c passed) (checksum-lt passed c small),
                      e,
                    )
                    run,
                how,
              )
        ]

abbrev pub Judged : ForkId → Bytes → ℕ → List ℕ → List ℕ → Result {0} Unit → Type 0
Judged forkid genesis head passed rest run =
    (verdict : Result {0} Unit) × (run ≡ verdict) × Verdict forkid genesis head passed rest verdict

pub validate_at :
    (forkid : ForkId) (genesis : Bytes) (head : ℕ) (passed rest : List ℕ)
    → AllBelow 256 genesis
    → AllBelow (2 ^ 64) (passed ++ rest)
    → head ≤ maxsize
    → AllBelow head passed
    → NotPassed head rest
    → Judged forkid genesis head passed rest (validate_forkid forkid genesis head (passed ++ rest))
unfolding validate_forkid
validate_at forkid genesis head passed rest bytes fits h below at =
    let (verdict, run, how) =
      check_at-Decided forkid genesis head passed rest (crc32-lt genesis 0 bytes (omega arith)) in
    (
      verdict,
      rw
          (
            more_checksums-ok (passed ++ rest) (crc32 genesis 0) fits,
            append_assoc passed rest (maxsize ∷ []),
          )
          (find_fork_at forkid genesis head passed rest (passed ++ (rest ++ maxsize ∷ []))
              (checksums (crc32 genesis 0) (passed ++ rest)) h below at
            ∙ run),
      how,
    )

abbrev Split : ℕ → List ℕ → Type 0
Split head blocks =
    (passed : List ℕ) × (rest : List ℕ) × (blocks ≡ passed ++ rest)
    × AllBelow head passed
    × NotPassed head rest

Split-blocks : (head : ℕ) (blocks : List ℕ) → Split head blocks
Split-blocks head [] = ([], [], refl, tt, tt)
Split-blocks head (b ∷ bs) = elim (Bool-cases (ltb b head)) [
  | inl e ↦
      let (passed, rest, whole, below, at) = Split-blocks head bs in
      (b ∷ passed, rest, ap (◌∷◌ b) whole, (ground arith, below), at)
  | inr e ↦ ([], b ∷ bs, refl, tt, ground arith)
]

-- For a genesis hash of bytes, fork blocks that fit in eight bytes and a head up to `sys.maxsize`,
-- `validate_forkid` has exactly the outcome of one of the rules, with the fork blocks split at the
-- first one that is not before the head.
pub validate_forkid_lem :
    (forkid : ForkId) (genesis : Bytes) (head : ℕ) (blocks : List ℕ)
    → AllBelow 256 genesis
    → AllBelow (2 ^ 64) blocks
    → head ≤ maxsize
    → (passed : List ℕ) × (rest : List ℕ) × (blocks ≡ passed ++ rest)
      × AllBelow head passed
      × NotPassed head rest
      × ((verdict : Result {0} Unit) × (validate_forkid forkid genesis head blocks ≡ verdict)
          × Verdict forkid genesis head passed rest verdict)
validate_forkid_lem forkid genesis head blocks bytes fits h =
    let (passed, rest, whole, below, at) = Split-blocks head blocks in
    (
      passed,
      rest,
      whole,
      below,
      at,
      subst (λ z. Judged forkid genesis head passed rest (validate_forkid forkid genesis head z))
          (sym whole)
          (validate_at forkid genesis head passed rest bytes (subst (AllBelow (2 ^ 64)) whole fits)
            h below at),
    )
