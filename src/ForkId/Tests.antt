-- ===== src/ForkId/Tests.antt =====
-- The identifiers of the main net that the tests of the repository list, and the theorems at them.
use trinity.Prelude.{
  ℕ, ◌^◌, ◌<◌, ◌≡◌, ◌⊎◌, refl, List, [], ◌∷◌, ◌++◌, arith, true, false, elem, ℕ_discrete,
}
use trinity.Prelude.Exec.{Result, ok, err, remote_chain_is_stale, local_chain_incompatible_or_stale}
use trinity.Prelude.Bytes.{Bytes, AllBelow, to_bytes, crc32}
use trinity.ForkId.{
  ForkId, new_fork_id, extract_fork_blocks, crc_to_bytes, collect_passed, make_forkid,
  more_checksums, check_next, check_subset, check_superset, check_other_forks, check_at, find_fork,
  validate_forkid,
}
use trinity.ForkId.Checksum.{fork_hash}
use trinity.ForkId.Making.{IsSplit, make_forkid_lem}
use trinity.ForkId.Validation.{NotPassed, Verdict, validate_forkid_lem}
use trinity.ForkId.Agreement.{validate_forkid-make_forkid, reject_at_fork}

program : Unit {0}
unfolding new_fork_id extract_fork_blocks crc_to_bytes collect_passed make_forkid more_checksums
    check_next check_subset check_superset check_other_forks check_at find_fork validate_forkid
    to_bytes crc32 ℕ_discrete
program = tt

abbrev genesis : Bytes
genesis =
    212 ∷ 229 ∷ 103 ∷ 64 ∷ 248 ∷ 118 ∷ 174 ∷ 248 ∷ 192 ∷ 16 ∷ 184 ∷ 106 ∷ 64 ∷ 213 ∷ 245 ∷ 103 ∷ 69
    ∷ 161 ∷ 24 ∷ 208 ∷ 144 ∷ 106 ∷ 52 ∷ 230 ∷ 154 ∷ 236 ∷ 140 ∷ 13 ∷ 177 ∷ 203 ∷ 143 ∷ 163 ∷ []

abbrev forks : List ℕ
forks = 1150000 ∷ 1920000 ∷ 2463000 ∷ []

abbrev homestead : ForkId
homestead = record { hash = 151 ∷ 194 ∷ 195 ∷ 76 ∷ []; next = 1920000 }

at_homestead : make_forkid genesis 1150000 forks ≡ ok homestead
unfolding program
at_homestead = refl

before_homestead :
    make_forkid genesis 1149999 forks
    ≡ ok (record { hash = 252 ∷ 100 ∷ 236 ∷ 4 ∷ []; next = 1150000 })
unfolding program
before_homestead = refl

synced : validate_forkid homestead genesis 1950000 forks ≡ ok tt
unfolding program
synced = refl

stale :
    validate_forkid (record homestead { next = 0 }) genesis 1950000 forks
    ≡ err remote_chain_is_stale
unfolding program
stale = refl

dao_fork :
    extract_fork_blocks (
      (0, record { is_homestead = false; support_dao_fork = false; dao_fork_block_number = 0 })
      ∷ (
        1150000,
        record { is_homestead = true; support_dao_fork = true; dao_fork_block_number = 1920000 },
      )
      ∷ [])
    ≡ 1150000 ∷ 1920000 ∷ []
unfolding program
dao_fork = refl

genesis-AllBelow : AllBelow 256 genesis
genesis-AllBelow = ground arith

forks-AllBelow : AllBelow (2 ^ 64) forks
forks-AllBelow = ground arith

make_forkid_example :
    (passed : List ℕ) × (rest : List ℕ) × (next : ℕ) × IsSplit 1150000 forks passed rest next
    × (make_forkid genesis 1150000 forks
        ≡ ok (record { hash = fork_hash genesis passed; next = next }))
make_forkid_example = make_forkid_lem genesis 1150000 forks genesis-AllBelow forks-AllBelow

validate_forkid_example :
    (passed : List ℕ) × (rest : List ℕ) × (forks ≡ passed ++ rest)
    × AllBelow 1950000 passed
    × NotPassed 1950000 rest
    × ((verdict : Result {0} Unit) × (validate_forkid homestead genesis 1950000 forks ≡ verdict)
        × Verdict homestead genesis 1950000 passed rest verdict)
validate_forkid_example =
    validate_forkid_lem homestead genesis 1950000 forks genesis-AllBelow forks-AllBelow
      (omega arith)

agreement_example :
    (remote : ForkId) × (make_forkid genesis 1150000 forks ≡ ok remote)
    × ((validate_forkid remote genesis 1950000 forks ≡ ok tt)
        ⊎ ((validate_forkid remote genesis 1950000 forks ≡ err local_chain_incompatible_or_stale)
            × (elem ℕ_discrete 1950000 forks ≡ true)
            × (1150000 < 1950000)))
unfolding program
agreement_example =
    validate_forkid-make_forkid genesis genesis-AllBelow forks 1950000 1150000 forks-AllBelow
      (omega arith) (refl, (refl, (refl, (refl, tt))))

reject_at_fork_example :
    (remote : ForkId) × (make_forkid genesis 1149999 forks ≡ ok remote)
    × (validate_forkid remote genesis 1150000 forks ≡ err local_chain_incompatible_or_stale)
reject_at_fork_example =
    reject_at_fork genesis genesis-AllBelow [] (1920000 ∷ 2463000 ∷ []) 1149999 forks-AllBelow
      (omega arith) tt
