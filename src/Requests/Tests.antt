-- ===== src/Requests/Tests.antt =====
-- A small chain, requests for parts of it, and the theorems at concrete inputs.
use trinity.Prelude.{
  ℕ, ◌+◌, ◌≤◌, ◌≡◌, ◌∙◌, refl, sym, ap, subst, false, ◌&&◌, ◌-◌, ◌==◌, Option, none, some, some_inj,
  List, [], ◌∷◌, length, Distinct, ltb, leb, if◌then◌else◌, Bool-cases, inl, inr, none-ne-some,
  arith, ℕ_discrete, pair_discrete,
}
use trinity.Prelude.Exec.{ok, err, validation_error}
use trinity.Prelude.Int.{◌+ℤ◌}
use trinity.Headers.Response.{hash, validate_result}
use trinity.Headers.Sequence.{sequence_builder, uint_256_max}
use trinity.Requests.Server.{
  BlockHeader, ChainDb, BlockHeadersQuery, start_number, available_headers, headers_from,
  lookup_headers, block_body, bodies_of, handle_get_block_bodies, block_receipts, receipts_of,
  handle_get_receipts, nodes_of, handle_get_node_data,
}
use trinity.Requests.Validators.{
  firsts, seconds, map_with, normalize_node_data, normalize_receipts, normalize_block_bodies,
  check_unique_keys, check_keys, validate_node_data, validate_pooled_transactions,
  validate_receipts, validate_block_bodies, receipt_roots, body_keys,
}
use trinity.Requests.Accepting.{Accepts, validators_lem}
use trinity.TaskQueue.Counts.{Within}
use trinity.Requests.Available.{IsChain, StartsCanonical, validator_of, summaries}
use trinity.Requests.Answers.{lookup_headers-accepted}
use trinity.Requests.Stored.{IsStore, AllSame, own_hashes}
use trinity.Requests.Replies.{replies-accepted}

abbrev header_of : ℕ → BlockHeader ℕ
header_of n = record {
  own_hash = 100 + n;
  block_number = n;
  transaction_root = 200 + n;
  uncles_hash = 7;
  receipt_root = 300 + n;
}

abbrev canonical_header : ℕ → Option (BlockHeader ℕ)
canonical_header n = if ltb n 4 then some (header_of n) else none

abbrev header_by_hash : ℕ → Option (BlockHeader ℕ)
header_by_hash k = if leb 100 k && ltb k 104 then some (header_of (k - 100)) else none

-- The transactions of block 2 are missing.
abbrev transactions_of : BlockHeader ℕ → Option ℕ
transactions_of h = if h.block_number == 2 then none else some h.transaction_root

abbrev node_of : ℕ → Option ℕ
node_of k = if ltb k 10 then some k else none

abbrev four_blocks : ChainDb ℕ ℕ ℕ ℕ ℕ
four_blocks = record {
  get_block_header_by_hash = header_by_hash;
  get_canonical_block_header_by_number = canonical_header;
  get_block_transactions = transactions_of;
  get_block_uncles = λ k. some k;
  get_receipts = λ h. some h.receipt_root;
  get_node = node_of;
}

program : Unit {0}
unfolding ℕ_discrete start_number available_headers headers_from lookup_headers block_body bodies_of
    handle_get_block_bodies block_receipts receipts_of handle_get_receipts nodes_of
    handle_get_node_data check_unique_keys check_keys validate_node_data validate_receipts
    validate_block_bodies validate_pooled_transactions sequence_builder ◌+ℤ◌
program = tt

-- From the block with hash 101 on, every second one, three of them: block 5 is not there.
abbrev query : BlockHeadersQuery ℕ
query = record { block_number_or_hash = hash 101; max_headers = 3; skip = 1; reverse = false }

two_headers : lookup_headers ℕ_discrete four_blocks query ≡ ok (header_of 1 ∷ header_of 3 ∷ [])
unfolding program
two_headers = refl

unknown_hash :
    lookup_headers ℕ_discrete four_blocks (record query { block_number_or_hash = hash 9 }) ≡ ok []
unfolding program
unknown_hash = refl

-- Block 2 has no transactions, and 900 is no hash.
some_bodies :
    length (handle_get_block_bodies ℕ_discrete four_blocks (101 ∷ 102 ∷ 900 ∷ 103 ∷ [])) ≡ 2
unfolding program
some_bodies = refl

some_nodes : handle_get_node_data ℕ_discrete four_blocks (3 ∷ 12 ∷ 3 ∷ 5 ∷ []) ≡ 3 ∷ 5 ∷ []
unfolding program
some_nodes = refl

abbrev node_twice : List (ℕ × ℕ)
node_twice = (3, 3) ∷ (3, 3) ∷ []

none_twice : validate_node_data ℕ_discrete (3 ∷ 5 ∷ []) node_twice ≡ err validation_error
unfolding program
none_twice = refl

four_blocks-numbered :
    (n : ℕ) (h : BlockHeader ℕ) → canonical_header n ≡ some h → h.block_number ≡ n
four_blocks-numbered n h e = elim (Bool-cases (ltb n 4)) [
  | inl t ↦
      let found : some (header_of n) ≡ some h = rw t at e in
      sym (ap (λ b. b.block_number) (some_inj refl found))
  | inr f ↦ absurd (none-ne-some (rw f at e))
]

four_blocks-hashed : (k : ℕ) (h : BlockHeader ℕ) → header_by_hash k ≡ some h → h.own_hash ≡ k
four_blocks-hashed k h e = elim (Bool-cases (leb 100 k && ltb k 104)) [
  | inl t ↦
      let found : some (header_of (k - 100)) ≡ some h = rw t at e in
      let back : 100 + (k - 100) ≡ k = ground arith in
      sym (ap (λ b. b.own_hash) (some_inj refl found)) ∙ back
  | inr f ↦ absurd (none-ne-some (rw f at e))
]

four_blocks-IsChain : IsChain ℕ_discrete four_blocks
four_blocks-IsChain = record { numbered = four_blocks-numbered; hashed = four_blocks-hashed }

starts_canonical : StartsCanonical ℕ_discrete four_blocks (hash 101)
starts_canonical h e =
    let same : header_of 1 ≡ h = some_inj refl e in
    (
      ap (λ b. canonical_header b.block_number) (sym same) ∙ ap some same,
      subst (λ b. b.block_number ≤ uint_256_max) same (omega arith),
    )

lookup_headers-accepted_example :
    (headers : List (BlockHeader ℕ)) × (lookup_headers ℕ_discrete four_blocks query ≡ ok headers)
    × (validate_result ℕ_discrete
          (validator_of ℕ_discrete four_blocks 192 query)
          (summaries headers)
        ≡ ok tt)
lookup_headers-accepted_example =
    lookup_headers-accepted ℕ_discrete four_blocks 192 query four_blocks-IsChain (omega arith)
      (omega arith) starts_canonical

abbrev same : ℕ → ℕ
same n = n

four_blocks-transactions :
    (h : BlockHeader ℕ) (t : ℕ) → transactions_of h ≡ some t → t ≡ h.transaction_root
four_blocks-transactions h t e = elim (Bool-cases (h.block_number == 2)) [
  | inl y ↦ absurd (none-ne-some (rw y at e))
  | inr n ↦ let found : some h.transaction_root ≡ some t = rw n at e in sym (some_inj refl found)
]

four_blocks-node : (k n : ℕ) → node_of k ≡ some n → n ≡ k
four_blocks-node k n e = elim (Bool-cases (ltb k 10)) [
  | inl y ↦ let found : some k ≡ some n = rw y at e in sym (some_inj refl found)
  | inr f ↦ absurd (none-ne-some (rw f at e))
]

four_blocks-IsStore : IsStore ℕ_discrete four_blocks same same same same
four_blocks-IsStore = record {
  has_transactions = four_blocks-transactions;
  has_uncles = λ k u e. sym (some_inj refl e);
  has_receipts = λ h r e. sym (some_inj refl e);
  has_node = four_blocks-node;
}

-- Two blocks that are there and one that is not.
abbrev wanted : List (BlockHeader ℕ)
wanted = header_of 1 ∷ header_of 2 ∷ header_of 60 ∷ []

wanted-AllSame : AllSame ℕ_discrete four_blocks wanted
wanted-AllSame = (
  λ b e. sym (some_inj refl e),
  (λ b e. sym (some_inj refl e), (λ b e. absurd (none-ne-some e), tt)),
)

replies-accepted_example :
    (validate_block_bodies (pair_discrete ℕ_discrete ℕ_discrete) wanted (
        normalize_block_bodies same same
          (handle_get_block_bodies ℕ_discrete four_blocks (own_hashes wanted)))
      ≡ ok tt)
    × (length (handle_get_block_bodies ℕ_discrete four_blocks (own_hashes wanted)) ≤ 128)
    × (validate_receipts ℕ_discrete wanted
          (normalize_receipts same (handle_get_receipts ℕ_discrete four_blocks (own_hashes wanted)))
        ≡ ok tt)
    × (length (handle_get_receipts ℕ_discrete four_blocks (own_hashes wanted)) ≤ 256)
    × (validate_node_data ℕ_discrete
          (3 ∷ 12 ∷ 3 ∷ [])
          (normalize_node_data same (handle_get_node_data ℕ_discrete four_blocks (3 ∷ 12 ∷ 3 ∷ [])))
        ≡ ok tt)
    × (length (handle_get_node_data ℕ_discrete four_blocks (3 ∷ 12 ∷ 3 ∷ [])) ≤ 384)
replies-accepted_example =
    replies-accepted ℕ_discrete four_blocks same same same same four_blocks-IsStore wanted
      (3 ∷ 12 ∷ 3 ∷ []) (pair_discrete ℕ_discrete ℕ_discrete) wanted-AllSame

abbrev two_roots : List (ℕ × (ℕ × ℕ))
two_roots = (0, (201, 7)) ∷ (0, (201, 8)) ∷ []

abbrev receipts_twice : List (ℕ × ℕ)
receipts_twice = (0, 301) ∷ (0, 301) ∷ []

validators_example :
    Accepts ℕ_discrete
      (validate_node_data ℕ_discrete (3 ∷ 5 ∷ []) node_twice)
      (Distinct ℕ_discrete (firsts node_twice) × Within ℕ_discrete (firsts node_twice) (3 ∷ 5 ∷ []))
    × Accepts ℕ_discrete (validate_pooled_transactions ℕ_discrete same (3 ∷ 5 ∷ []) (5 ∷ 3 ∷ [])) (
        Distinct ℕ_discrete (map_with same (5 ∷ 3 ∷ []))
        × Within ℕ_discrete (map_with same (5 ∷ 3 ∷ [])) (3 ∷ 5 ∷ []))
    × Accepts ℕ_discrete
        (validate_receipts ℕ_discrete wanted receipts_twice)
        (Within ℕ_discrete (seconds receipts_twice) (receipt_roots wanted))
    × Accepts
        (pair_discrete ℕ_discrete ℕ_discrete)
        (validate_block_bodies (pair_discrete ℕ_discrete ℕ_discrete) wanted two_roots)
        (Within (pair_discrete ℕ_discrete ℕ_discrete) (seconds two_roots) (body_keys wanted))
validators_example =
    validators_lem ℕ_discrete (pair_discrete ℕ_discrete ℕ_discrete) same (3 ∷ 5 ∷ []) wanted
      node_twice (5 ∷ 3 ∷ []) receipts_twice two_roots
