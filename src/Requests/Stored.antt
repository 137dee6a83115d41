-- ===== src/Requests/Stored.antt =====
-- What a database has, and the keys of it that a validator looks at.
use trinity.Prelude.{
  ℕ, zero, suc, ◌≡◌, ◌∙◌, refl, sym, ap, true, false, some, List, [], ◌∷◌, take, elem, elem_first,
  elem_more, elem_rest, Distinct, arith, Bool-cases, Option-cases, none-ne-some, true-ne-false,
  some_inj, inl, inr,
}
use trinity.Prelude.Exec.{Result, ok}
use trinity.Requests.Server.{
  BlockHeader, BlockBody, ChainDb, block_body, bodies_of, block_receipts, receipts_of, nodes_of,
}
use trinity.Requests.Validators.{
  firsts, seconds, normalize_node_data, normalize_receipts, normalize_block_bodies, receipt_roots,
  body_keys,
}
use trinity.Requests.Accepting.{Accepts}
use trinity.TaskQueue.Counts.{Within}

abbrev pub own_hashes : {K : Type 0} → List (BlockHeader K) → List K
own_hashes [] = []
own_hashes (h ∷ hs) = h.own_hash ∷ own_hashes hs

pub take-own_hashes :
    {K : Type 0} (n : ℕ) (hs : List (BlockHeader K))
    → take n (own_hashes hs) ≡ own_hashes (take n hs)
take-own_hashes zero hs = refl
take-own_hashes (suc n) [] = refl
take-own_hashes (suc n) (h ∷ hs) = ap (◌∷◌ h.own_hash) (take-own_hashes n hs)

pub take-receipt_roots :
    {K : Type 0} (n : ℕ) (hs : List (BlockHeader K))
    → receipt_roots (take n hs) ≡ take n (receipt_roots hs)
take-receipt_roots zero hs = refl
take-receipt_roots (suc n) [] = refl
take-receipt_roots (suc n) (h ∷ hs) = ap (◌∷◌ h.receipt_root) (take-receipt_roots n hs)

pub take-body_keys :
    {K : Type 0} (n : ℕ) (hs : List (BlockHeader K)) → body_keys (take n hs) ≡ take n (body_keys hs)
take-body_keys zero hs = refl
take-body_keys (suc n) [] = refl
take-body_keys (suc n) (h ∷ hs) = ap (◌∷◌ (h.transaction_root, h.uncles_hash)) (take-body_keys n hs)

module _ {A : Type 0} (dec : Discrete A) where
  pub elem-take :
      (n : ℕ) (a : A) (xs : List A) → elem dec a (take n xs) ≡ true → elem dec a xs ≡ true
  elem-take zero a xs h = absurd (ground arith)
  elem-take (suc n) a [] h = absurd (ground arith)
  elem-take (suc n) a (x ∷ xs) h = ground (arith, elem-take n a xs)

  pub accepts_ok :
      (outcome : Result {0} Unit) (P : Type 0) → Accepts dec outcome P → P → outcome ≡ ok tt
  accepts_ok outcome P (inl (e, p)) q = e
  accepts_ok outcome P (inr (e, n)) q = absurd (n q)

module _ {K Transactions Uncles Receipts Node : Type 0} (dec : Discrete K)
    (db : ChainDb K Transactions Uncles Receipts Node) where
  -- What the database has fits the hashes and roots that it is found by.
  pub record IsStore (keccak : Node → K) (transaction_root : Transactions → K)
      (uncles_hash : Uncles → K) (receipt_root : Receipts → K) : Type 0 where
    pub has_transactions :
        (h : BlockHeader K) (t : Transactions)
        → db.get_block_transactions h ≡ some t
        → transaction_root t ≡ h.transaction_root
    pub has_uncles : (k : K) (u : Uncles) → db.get_block_uncles k ≡ some u → uncles_hash u ≡ k
    pub has_receipts :
        (h : BlockHeader K) (r : Receipts)
        → db.get_receipts h ≡ some r
        → receipt_root r ≡ h.receipt_root
    pub has_node : (k : K) (n : Node) → db.get_node k ≡ some n → keccak n ≡ k

  -- The headers of the peer that asks are those that the database has by their hashes, if it does.
  abbrev pub AllSame : List (BlockHeader K) → Type 0
  AllSame [] = Unit
  AllSame (h ∷ hs) =
      ((b : BlockHeader K) → db.get_block_header_by_hash h.own_hash ≡ some b → b ≡ h) × AllSame hs

  pub take-AllSame : (n : ℕ) (hs : List (BlockHeader K)) → AllSame hs → AllSame (take n hs)
  take-AllSame zero hs a = tt
  take-AllSame (suc n) [] a = tt
  take-AllSame (suc n) (h ∷ hs) a = (a.0, take-AllSame n hs a.1)

  module _ (keccak : Node → K) (transaction_root : Transactions → K) (uncles_hash : Uncles → K)
      (receipt_root : Receipts → K)
      (store : IsStore keccak transaction_root uncles_hash receipt_root) where
    -- The keys of a body that is found are those of its header.
    body_lem :
        (h : BlockHeader K) (body : BlockBody Transactions Uncles)
        → ((b : BlockHeader K) → db.get_block_header_by_hash h.own_hash ≡ some b → b ≡ h)
        → block_body dec db h.own_hash ≡ some body
        → (transaction_root body.transactions ≡ h.transaction_root)
          × (uncles_hash body.uncles ≡ h.uncles_hash)
    unfolding block_body
    body_lem h body same e = elim (Option-cases (db.get_block_header_by_hash h.own_hash)) [
      | inl n ↦ absurd (none-ne-some (rw n at e))
      | inr (b, f) ↦ elim (Option-cases (db.get_block_transactions b)) [
        | inl n ↦ absurd (none-ne-some (rw (f, n) at e))
        | inr (t, g) ↦ elim (Option-cases (db.get_block_uncles b.uncles_hash)) [
          | inl n ↦ absurd (none-ne-some (rw (f, g, n) at e))
          | inr (u, k) ↦
              let found : some (record { transactions = t; uncles = u }) ≡ some body =
                rw (f, g, k) at e in
              let built = some_inj refl found in
              (
                ap (λ x. transaction_root x.transactions) (sym built)
                    ∙ store.has_transactions b t g
                    ∙ ap (λ x. x.transaction_root) (same b f),
                ap (λ x. uncles_hash x.uncles) (sym built)
                    ∙ store.has_uncles b.uncles_hash u k
                    ∙ ap (λ x. x.uncles_hash) (same b f),
              )
        ]
      ]
    ]

    pub bodies-Within :
        (dec_pair : Discrete (K × K)) (hs : List (BlockHeader K))
        → AllSame hs
        → Within dec_pair
            (seconds (
              normalize_block_bodies transaction_root uncles_hash
                (bodies_of dec db (own_hashes hs))))
            (body_keys hs)
    unfolding bodies_of
    bodies-Within dec_pair [] a k p = p
    bodies-Within dec_pair (h ∷ hs) a k p =
        let key : K × K = (h.transaction_root, h.uncles_hash) in
        let rest = seconds (
          normalize_block_bodies transaction_root uncles_hash (bodies_of dec db (own_hashes hs))) in
        elim (Option-cases (block_body dec db h.own_hash)) [
          | inl n ↦
              elem_more dec_pair k key (body_keys hs) (bodies-Within dec_pair hs a.1 k (rw n at p))
          | inr (body, e) ↦
              let (root, uncles) = body_lem h body a.0 e in
              let p' : elem dec_pair k (key ∷ rest) ≡ true = rw (e, root, uncles) at p in
              elim (dec_pair k key) [
                | yes q ↦ elem_first dec_pair k key (body_keys hs) q
                | no q ↦
                    elem_more dec_pair k key (body_keys hs)
                      (bodies-Within dec_pair hs a.1 k (elem_rest dec_pair k key rest q p'))
              ]
        ]

    receipt_lem :
        (h : BlockHeader K) (r : Receipts)
        → ((b : BlockHeader K) → db.get_block_header_by_hash h.own_hash ≡ some b → b ≡ h)
        → block_receipts dec db h.own_hash ≡ some r
        → receipt_root r ≡ h.receipt_root
    unfolding block_receipts
    receipt_lem h r same e = elim (Option-cases (db.get_block_header_by_hash h.own_hash)) [
      | inl n ↦ absurd (none-ne-some (rw n at e))
      | inr (b, f) ↦ store.has_receipts b r (rw f at e) ∙ ap (λ x. x.receipt_root) (same b f)
    ]

    pub receipts-Within :
        (hs : List (BlockHeader K))
        → AllSame hs
        → Within dec
            (seconds (normalize_receipts receipt_root (receipts_of dec db (own_hashes hs))))
            (receipt_roots hs)
    unfolding receipts_of
    receipts-Within [] a k p = p
    receipts-Within (h ∷ hs) a k p =
        let rest = seconds (normalize_receipts receipt_root (receipts_of dec db (own_hashes hs))) in
        elim (Option-cases (block_receipts dec db h.own_hash)) [
          | inl n ↦
              elem_more dec k h.receipt_root (receipt_roots hs)
                (receipts-Within hs a.1 k (rw n at p))
          | inr (r, e) ↦
              let root = receipt_lem h r a.0 e in
              let p' : elem dec k (h.receipt_root ∷ rest) ≡ true = rw (e, root) at p in
              elim (dec k h.receipt_root) [
                | yes q ↦ elem_first dec k h.receipt_root (receipt_roots hs) q
                | no q ↦
                    elem_more dec k h.receipt_root (receipt_roots hs)
                      (receipts-Within hs a.1 k (elem_rest dec k h.receipt_root rest q p'))
              ]
        ]

    -- The keys of the nodes that are found, in the order of the hashes.
    pub nodes_keys :
        (ks : List K)
        → Distinct dec ks
        → ((k : K)
            → elem dec k (firsts (normalize_node_data keccak (nodes_of dec db ks))) ≡ true
            → elem dec k ks ≡ true)
          × Distinct dec (firsts (normalize_node_data keccak (nodes_of dec db ks)))
    unfolding nodes_of
    nodes_keys [] d = (λ k p. p, tt)
    nodes_keys (k ∷ ks) d =
        let (inside, distinct) = nodes_keys ks d.1 in
        let rest = firsts (normalize_node_data keccak (nodes_of dec db ks)) in
        elim (Option-cases (db.get_node k)) [
          | inl n ↦ rw n (λ j p. elem_more dec j k ks (inside j p), distinct)
          | inr (node, e) ↦
              let absent : elem dec k rest ≡ false = elim (Bool-cases (elem dec k rest)) [
                | inl p ↦ absurd (true-ne-false (sym (inside k p) ∙ d.0))
                | inr p ↦ p
              ] in
              rw (e, store.has_node k node e)
                (
                  λ j p. elim (dec j k) [
                    | yes q ↦ elem_first dec j k ks q
                    | no q ↦ elem_more dec j k ks (inside j (elem_rest dec j k rest q p))
                  ],
                  (absent, distinct),
                )
        ]
