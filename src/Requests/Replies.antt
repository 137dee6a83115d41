-- ===== src/Requests/Replies.antt =====
-- Replies with block bodies, receipts and node data.
use trinity.Prelude.{
  ℕ, suc, ◌≤◌, ◌≡◌, ◌∙◌, sym, ap, Option, none, some, List, [], ◌∷◌, length, take, elem, Distinct,
  arith,
}
use trinity.Prelude.Exec.{ok}
use trinity.TaskQueue.Queue.{members}
use trinity.TaskQueue.Counts.{Within, members-Distinct, elem-members}
use trinity.TaskQueue.Rounds.{length-take-le}
use trinity.Requests.Server.{
  BlockHeader, ChainDb, cons_found, block_body, bodies_of, handle_get_block_bodies, block_receipts,
  receipts_of, handle_get_receipts, nodes_of, handle_get_node_data,
}
use trinity.Requests.Validators.{
  firsts, seconds, normalize_node_data, normalize_receipts, normalize_block_bodies, receipt_roots,
  body_keys, check_keys, check_unique_keys, validate_node_data, validate_receipts,
  validate_block_bodies,
}
use trinity.Requests.Accepting.{unique_keys_lem, keys_lem, length-members_le}
use trinity.Requests.Stored.{
  own_hashes, take-own_hashes, take-receipt_roots, take-body_keys, elem-take, accepts_ok, IsStore,
  AllSame, take-AllSame, bodies-Within, receipts-Within, nodes_keys,
}

module _ {K Transactions Uncles Receipts Node : Type 0} (dec : Discrete K)
    (db : ChainDb K Transactions Uncles Receipts Node) where
  module _ (keccak : Node → K) (transaction_root : Transactions → K) (uncles_hash : Uncles → K)
      (receipt_root : Receipts → K)
      (store : IsStore dec db keccak transaction_root uncles_hash receipt_root) where
    cons_found_le :
        {A : Type 0} (o : Option A) (xs : List A) (n : ℕ)
        → length xs ≤ n
        → length (cons_found o xs) ≤ suc n
    cons_found_le none xs n h = omega arith
    cons_found_le (some x) xs n h = omega arith

    length-bodies_of : (ks : List K) → length (bodies_of dec db ks) ≤ length ks
    unfolding bodies_of
    length-bodies_of [] = omega arith
    length-bodies_of (k ∷ ks) =
        cons_found_le (block_body dec db k) (bodies_of dec db ks) (length ks) (length-bodies_of ks)

    length-receipts_of : (ks : List K) → length (receipts_of dec db ks) ≤ length ks
    unfolding receipts_of
    length-receipts_of [] = omega arith
    length-receipts_of (k ∷ ks) =
        cons_found_le (block_receipts dec db k) (receipts_of dec db ks) (length ks)
          (length-receipts_of ks)

    length-nodes_of : (ks : List K) → length (nodes_of dec db ks) ≤ length ks
    unfolding nodes_of
    length-nodes_of [] = omega arith
    length-nodes_of (k ∷ ks) =
        cons_found_le (db.get_node k) (nodes_of dec db ks) (length ks) (length-nodes_of ks)

    bodies-accepted :
        (headers : List (BlockHeader K)) (dec_pair : Discrete (K × K))
        → AllSame dec db headers
        → validate_block_bodies dec_pair headers (
            normalize_block_bodies transaction_root uncles_hash
              (handle_get_block_bodies dec db (own_hashes headers)))
          ≡ ok tt
    unfolding validate_block_bodies handle_get_block_bodies
    bodies-accepted headers dec_pair a =
        let first = take 128 headers in
        let reply = seconds (
          normalize_block_bodies transaction_root uncles_hash
            (bodies_of dec db (own_hashes first))) in
        let inside : Within dec_pair reply (body_keys headers) = λ k p.
          elem-take dec_pair 128 k (body_keys headers) (
            ap (elem dec_pair k) (sym (take-body_keys 128 headers))
            ∙ bodies-Within dec db keccak transaction_root uncles_hash receipt_root store dec_pair
                first (take-AllSame dec db 128 headers a) k p) in
        rw (take-own_hashes 128 headers) (
          accepts_ok dec_pair (check_keys dec_pair (body_keys headers) reply)
            (Within dec_pair reply (body_keys headers))
            (keys_lem dec_pair (body_keys headers) reply) inside)

    receipts-accepted :
        (headers : List (BlockHeader K))
        → AllSame dec db headers
        → validate_receipts dec headers
            (normalize_receipts receipt_root (handle_get_receipts dec db (own_hashes headers)))
          ≡ ok tt
    unfolding validate_receipts handle_get_receipts
    receipts-accepted headers a =
        let first = take 256 headers in
        let reply =
          seconds (normalize_receipts receipt_root (receipts_of dec db (own_hashes first))) in
        let inside : Within dec reply (receipt_roots headers) = λ k p.
          elem-take dec 256 k (receipt_roots headers) (
            ap (elem dec k) (sym (take-receipt_roots 256 headers))
            ∙ receipts-Within dec db keccak transaction_root uncles_hash receipt_root store first
                (take-AllSame dec db 256 headers a) k p) in
        rw (take-own_hashes 256 headers) (
          accepts_ok dec (check_keys dec (receipt_roots headers) reply)
            (Within dec reply (receipt_roots headers)) (keys_lem dec (receipt_roots headers) reply)
            inside)

    nodes-accepted :
        (node_hashes : List K)
        → validate_node_data dec node_hashes
            (normalize_node_data keccak (handle_get_node_data dec db node_hashes))
          ≡ ok tt
    unfolding validate_node_data handle_get_node_data
    nodes-accepted node_hashes =
        let wanted = take 384 node_hashes in
        let (inside, distinct) =
          nodes_keys dec db keccak transaction_root uncles_hash receipt_root store
            (members dec wanted) (members-Distinct dec wanted) in
        let reply = firsts (normalize_node_data keccak (nodes_of dec db (members dec wanted))) in
        accepts_ok dec (check_unique_keys dec node_hashes reply)
          (Distinct dec reply × Within dec reply node_hashes)
          (unique_keys_lem dec node_hashes reply)
          (
            distinct,
            λ k p. elem-take dec 384 k node_hashes (sym (elem-members dec k wanted) ∙ inside k p),
          )

    -- Whatever is asked for, the replies of a database that fits its hashes pass the validators of
    -- the peer that asked: block bodies and receipts for the hashes of headers that the database has
    -- the same of, if any, and node data for any hashes. They have at most 128, 256 and 384 items.
    pub replies-accepted :
        (headers : List (BlockHeader K)) (node_hashes : List K) (dec_pair : Discrete (K × K))
        → AllSame dec db headers
        → (validate_block_bodies dec_pair headers (
              normalize_block_bodies transaction_root uncles_hash
                (handle_get_block_bodies dec db (own_hashes headers)))
            ≡ ok tt)
          × (length (handle_get_block_bodies dec db (own_hashes headers)) ≤ 128)
          × (validate_receipts dec headers
                (normalize_receipts receipt_root (handle_get_receipts dec db (own_hashes headers)))
              ≡ ok tt)
          × (length (handle_get_receipts dec db (own_hashes headers)) ≤ 256)
          × (validate_node_data dec node_hashes
                (normalize_node_data keccak (handle_get_node_data dec db node_hashes))
              ≡ ok tt)
          × (length (handle_get_node_data dec db node_hashes) ≤ 384)
    unfolding handle_get_block_bodies handle_get_receipts handle_get_node_data
    replies-accepted headers node_hashes dec_pair a =
        let hashes = own_hashes headers in
        let wanted = take 384 node_hashes in
        (
          bodies-accepted headers dec_pair a,
          omega (arith, length-bodies_of (take 128 hashes), length-take-le 128 hashes),
          receipts-accepted headers a,
          omega (arith, length-receipts_of (take 256 hashes), length-take-le 256 hashes),
          nodes-accepted node_hashes,
          omega (
            arith,
            length-nodes_of (members dec wanted),
            length-members_le dec wanted,
            length-take-le 384 node_hashes,
          ),
        )
