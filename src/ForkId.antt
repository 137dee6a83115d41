-- ===== src/ForkId.antt =====
-- trinity/protocol/eth/forkid.py: the identifier of EIP-2124 that tells which forks a node has passed.
use trinity.Prelude.{
  ℕ, suc, ◌+◌, ◌-◌, ◌^◌, Bool, true, false, Option, none, some, List, [], ◌∷◌, ◌++◌, ◌&&◌, not, ltb,
  leb, ◌==◌, if◌then◌else◌, take, drop, get_elem?, length,
}
use trinity.Prelude.Exec.{
  Result, ok, err, value_error, index_error, remote_chain_is_stale,
  local_chain_incompatible_or_stale,
}
use trinity.Prelude.Fallible.{pure, raise, raise_if, require, ◌>>=◌, ◌>>◌}
use trinity.Prelude.Bytes.{Bytes, to_bytes, equal_bytes, crc32}
pub mod Checksum
pub mod Making
pub mod Search
pub mod Validation
pub mod Agreement
mod Tests

pub record ForkId : Type 0 where
  pub hash : Bytes
  pub next : ℕ

-- What the code reads of a virtual machine class.
pub record VirtualMachine : Type 0 where
  pub is_homestead : Bool
  pub support_dao_fork : Bool
  pub dao_fork_block_number : ℕ

-- `ForkID(hash, next)`
unfoldable pub new_fork_id : Bytes → ℕ → Result ForkId
new_fork_id hash next = do
  raise_if value_error (not (length hash == 4))
  pure (record { hash = hash; next = next })

unfoldable pub extract_fork_blocks : List (ℕ × VirtualMachine) → List ℕ
extract_fork_blocks [] = []
extract_fork_blocks ((block, vm) ∷ vm_configuration) =
    let rest = extract_fork_blocks vm_configuration in
    if block == 0
    then rest
    else if vm.is_homestead && vm.support_dao_fork
    then block ∷ vm.dao_fork_block_number ∷ rest
    else block ∷ rest

unfoldable pub crc_to_bytes : ℕ → Result Bytes
crc_to_bytes crc = to_bytes 4 crc

-- The loop of `make_forkid`: the bytes to hash, and the next fork.
unfoldable pub collect_passed : ℕ → List ℕ → Bytes → Result (Bytes × ℕ)
collect_passed current_head [] pre_hash_bytes = pure (pre_hash_bytes, 0)
collect_passed current_head (block_number ∷ fork_blocks) pre_hash_bytes =
    if ltb current_head block_number then pure (pre_hash_bytes, block_number) else do
      block_bytes ← to_bytes 8 block_number
      collect_passed current_head fork_blocks (pre_hash_bytes ++ block_bytes)

unfoldable pub make_forkid : Bytes → ℕ → List ℕ → Result ForkId
make_forkid genesis_hash current_head fork_blocks = do
  (pre_hash_bytes, next_fork) ← collect_passed current_head fork_blocks genesis_hash
  checksum ← crc_to_bytes (crc32 pre_hash_bytes 0)
  new_fork_id checksum next_fork

-- The loop that fills `checksums`, from its last entry on.
unfoldable pub more_checksums : ℕ → List ℕ → Result (List ℕ)
more_checksums last [] = pure (last ∷ [])
more_checksums last (block_number ∷ fork_blocks) = do
  block_number_as_bytes ← to_bytes 8 block_number
  rest ← more_checksums (crc32 block_number_as_bytes last) fork_blocks
  pure (last ∷ rest)

-- `sys.maxsize`
abbrev pub maxsize : ℕ
maxsize = 9223372036854775807

-- Rule 1, of a remote that is where the local chain is.
unfoldable pub check_next : ℕ → ℕ → Result {0} Unit
check_next head next = raise_if local_chain_incompatible_or_stale (ltb 0 next && leb next head)

-- Rule 2: `some` is the outcome of the first of the local forks whose checksum matches.
unfoldable pub check_subset : ForkId → List ℕ → List ℕ → Result (Option (Result {0} Unit))
check_subset forkid (b ∷ blocks) (c ∷ checksums) = do
  hash ← crc_to_bytes c
  if equal_bytes hash forkid.hash
      then pure (some (raise_if remote_chain_is_stale (not (b == forkid.next))))
      else check_subset forkid blocks checksums
check_subset forkid _ _ = pure none

-- Rule 3: a checksum of the forks to come.
unfoldable pub check_superset : ForkId → List ℕ → Result Bool
check_superset forkid [] = pure false
check_superset forkid (c ∷ checksums) = do
  hash ← crc_to_bytes c
  if equal_bytes hash forkid.hash then pure true else check_superset forkid checksums

-- The last two loops of the body.
unfoldable pub check_other_forks : ForkId → ℕ → List ℕ → List ℕ → Result {0} Unit
check_other_forks forkid i fork_blocks_list checksums = do
  subset ← check_subset forkid (take i fork_blocks_list) (take i checksums)
  elim subset [
    | some outcome ↦ outcome
    | none ↦ do
      superset ← check_superset forkid (drop i checksums)
      raise_if local_chain_incompatible_or_stale (not superset)
  ]

-- The body of the loop of `validate_forkid` at the first fork that is not passed.
unfoldable pub check_at : ForkId → ℕ → ℕ → List ℕ → List ℕ → Result {0} Unit
check_at forkid head i fork_blocks_list checksums = do
  checksum ← require index_error (get_elem? checksums i)
  hash ← crc_to_bytes checksum
  if equal_bytes hash forkid.hash
      then check_next head forkid.next
      else check_other_forks forkid i fork_blocks_list checksums

-- `for i, block_number in enumerate(fork_blocks_list)`, from the index `i` on.
unfoldable pub find_fork : ForkId → ℕ → ℕ → List ℕ → List ℕ → List ℕ → Result {0} Unit
find_fork forkid head i [] fork_blocks_list checksums = pure tt
find_fork forkid head i (block_number ∷ rest) fork_blocks_list checksums =
    if ltb block_number head
    then find_fork forkid head (suc i) rest fork_blocks_list checksums
    else check_at forkid head i fork_blocks_list checksums

unfoldable pub validate_forkid : ForkId → Bytes → ℕ → List ℕ → Result {0} Unit
validate_forkid forkid genesis_hash head fork_blocks = do
  checksums ← more_checksums (crc32 genesis_hash 0) fork_blocks
  find_fork forkid head 0 (fork_blocks ++ maxsize ∷ []) (fork_blocks ++ maxsize ∷ []) checksums
