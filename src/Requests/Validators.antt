-- ===== src/Requests/Validators.antt =====
-- The normalizers and validators of node data, receipts, block bodies and pooled transactions. The
-- hashes and trie roots that a normalizer computes are functions that it is given.
use trinity.Prelude.{List, [], ◌∷◌, not, length, ◌==◌}
use trinity.Prelude.Exec.{Result, validation_error}
use trinity.Prelude.Fallible.{pure, raise_if, ◌>>◌}
use trinity.Preparation.Completion.{difference, is_nil}
use trinity.TaskQueue.Queue.{members}
use trinity.Requests.Server.{BlockHeader, BlockBody}

-- The first components, and a function on each item.
abbrev pub firsts : {A B : Type 0} → List (A × B) → List A
firsts [] = []
firsts (e ∷ es) = e.0 ∷ firsts es

abbrev pub map_with : {A B : Type 0} → (A → B) → List A → List B
map_with f [] = []
map_with f (x ∷ xs) = f x ∷ map_with f xs

-- `GetNodeDataNormalizer`, `ReceiptsNormalizer` and `GetBlockBodiesNormalizer`.
abbrev pub normalize_node_data : {K Node : Type 0} → (Node → K) → List Node → List (K × Node)
normalize_node_data keccak payload = map_with (λ node. (keccak node, node)) payload

abbrev pub normalize_receipts :
    {K Receipts : Type 0} → (Receipts → K) → List Receipts → List (Receipts × K)
normalize_receipts trie_root payload = map_with (λ r. (r, trie_root r)) payload

abbrev pub normalize_block_bodies :
    {K Transactions Uncles : Type 0}
    → (Transactions → K)
    → (Uncles → K)
    → List (BlockBody Transactions Uncles)
    → List (BlockBody Transactions Uncles × (K × K))
normalize_block_bodies trie_root uncles_hash payload =
    map_with (λ body. (body, (trie_root body.transactions, uncles_hash body.uncles))) payload

module _ {K : Type 0} (dec : Discrete K) where
  -- The two checks that node data and transactions share: no key twice, and none unexpected.
  unfoldable pub check_unique_keys : List K → List K → Result {0} Unit
  check_unique_keys expected [] = pure tt
  check_unique_keys expected (k ∷ ks) = do
    raise_if validation_error (not (length (k ∷ ks) == length (members dec (k ∷ ks))))
    raise_if validation_error (not (is_nil (difference dec (members dec (k ∷ ks)) expected)))

  -- The check that receipts and bodies share.
  unfoldable pub check_keys : List K → List K → Result {0} Unit
  check_keys expected ks =
      raise_if validation_error
        (not (is_nil (difference dec (members dec ks) (members dec expected))))

  -- `GetNodeDataValidator`
  unfoldable pub validate_node_data : {Node : Type 0} → List K → List (K × Node) → Result {0} Unit
  unfolding check_unique_keys
  validate_node_data node_hashes response = check_unique_keys node_hashes (firsts response)

  -- `GetPooledTransactionsValidator`
  unfoldable pub validate_pooled_transactions :
      {Tx : Type 0} → (Tx → K) → List K → List Tx → Result {0} Unit
  unfolding check_unique_keys
  validate_pooled_transactions tx_hash transaction_hashes response =
      check_unique_keys transaction_hashes (map_with tx_hash response)

abbrev pub seconds : {A B : Type 0} → List (A × B) → List B
seconds [] = []
seconds (e ∷ es) = e.1 ∷ seconds es

abbrev pub receipt_roots : {K : Type 0} → List (BlockHeader K) → List K
receipt_roots [] = []
receipt_roots (h ∷ hs) = h.receipt_root ∷ receipt_roots hs

abbrev pub body_keys : {K : Type 0} → List (BlockHeader K) → List (K × K)
body_keys [] = []
body_keys (h ∷ hs) = (h.transaction_root, h.uncles_hash) ∷ body_keys hs

-- `ReceiptsValidator`
unfoldable pub validate_receipts :
    {K Receipts : Type 0}
    → Discrete K
    → List (BlockHeader K)
    → List (Receipts × K)
    → Result {0} Unit
unfolding check_keys
validate_receipts dec headers result = check_keys dec (receipt_roots headers) (seconds result)

-- `GetBlockBodiesValidator`
unfoldable pub validate_block_bodies :
    {K Body : Type 0}
    → Discrete (K × K)
    → List (BlockHeader K)
    → List (Body × (K × K))
    → Result {0} Unit
unfolding check_keys
validate_block_bodies dec headers response = check_keys dec (body_keys headers) (seconds response)
