-- ===== src/Requests/Accepting.antt =====
-- What the validators accept.
use trinity.Prelude.{
  ◌≤◌, ◌≡◌, ◌↔◌, ◌∙◌, refl, sym, List, [], ◌∷◌, length, Distinct, arith, ◌==◌, true-ne-false, ◌⊎◌,
  Bool-cases, inl, inr,
}
use trinity.Prelude.Exec.{Result, ok, err, validation_error}
use trinity.Preparation.Completion.{difference, is_nil}
use trinity.TaskQueue.Queue.{members}
use trinity.TaskQueue.Counts.{Within, nil_if_Within, Within-if_nil, elem-members}
use trinity.Requests.Server.{BlockHeader}
use trinity.Requests.Validators.{
  firsts, seconds, map_with, check_unique_keys, check_keys, validate_node_data,
  validate_pooled_transactions, validate_receipts, validate_block_bodies, receipt_roots, body_keys,
}

module _ {K : Type 0} (dec : Discrete K) where
  pub length-members_le : (ks : List K) → length (members dec ks) ≤ length ks
  length-members_le [] = omega arith
  length-members_le (k ∷ ks) = ground (arith, length-members_le ks)

  members_full : (ks : List K) → (length ks ≡ length (members dec ks)) ↔ Distinct dec ks
  members_full [] = (λ h. tt, λ h. refl)
  members_full (k ∷ ks) =
      ground (arith, members_full ks, elem-members dec k ks, length-members_le ks)

  -- The outcome of a check against what it accepts.
  abbrev pub Accepts : Result {0} Unit → Type 0 → Type 0
  Accepts outcome P = ((outcome ≡ ok tt) × P) ⊎ ((outcome ≡ err validation_error) × ¬ P)

  pub unique_keys_lem :
      (expected ks : List K)
      → Accepts (check_unique_keys dec expected ks) (Distinct dec ks × Within dec ks expected)
  unfolding check_unique_keys
  unique_keys_lem expected [] = inl (refl, (tt, λ k h. absurd (ground arith)))
  unique_keys_lem expected (k ∷ ks) =
      let all = k ∷ ks in
      elim (Bool-cases (length all == length (members dec all))) [
        | inr e ↦ inr (rw e refl, λ p. absurd (ground (arith, (members_full all).1 p.0)))
        | inl e ↦ elim (Bool-cases (is_nil (difference dec (members dec all) expected))) [
          | inl f ↦ inl (
            rw (e, f) refl,
            (
              (members_full all).0 (ground arith),
              λ x h. Within-if_nil dec (members dec all) expected f x (elem-members dec x all ∙ h),
            ),
          )
          | inr f ↦ inr (
            rw (e, f) refl,
            λ p.
                let g =
                  nil_if_Within dec (members dec all) expected
                    (λ x h. p.1 x (sym (elem-members dec x all) ∙ h)) in
                true-ne-false (sym g ∙ f),
          )
        ]
      ]

  pub keys_lem :
      (expected ks : List K) → Accepts (check_keys dec expected ks) (Within dec ks expected)
  unfolding check_keys
  keys_lem expected ks =
      elim (Bool-cases (is_nil (difference dec (members dec ks) (members dec expected)))) [
        | inl f ↦ inl (
          rw f refl,
          λ x h.
              sym (elem-members dec x expected)
              ∙ Within-if_nil dec (members dec ks) (members dec expected) f x
                  (elem-members dec x ks ∙ h),
        )
        | inr f ↦ inr (
          rw f refl,
          λ p.
              let g =
                nil_if_Within dec (members dec ks) (members dec expected)
                  (λ x h. elem-members dec x expected ∙ p x (sym (elem-members dec x ks) ∙ h)) in
              true-ne-false (sym g ∙ f),
        )
      ]

-- Node data and pooled transactions are accepted exactly where no key is there twice and all were
-- asked for, receipts where every root is the receipt root of one of the headers, and bodies where
-- every pair of roots is that of one of the headers; anything else raises a ValidationError.
pub validators_lem :
    {K Node Tx Receipts Body : Type 0} (dec : Discrete K) (dec_pair : Discrete (K × K))
    (tx_hash : Tx → K) (hashes : List K) (headers : List (BlockHeader K)) (nodes : List (K × Node))
    (txs : List Tx) (receipts : List (Receipts × K)) (bodies : List (Body × (K × K)))
    → Accepts dec
        (validate_node_data dec hashes nodes)
        (Distinct dec (firsts nodes) × Within dec (firsts nodes) hashes)
      × Accepts dec
          (validate_pooled_transactions dec tx_hash hashes txs)
          (Distinct dec (map_with tx_hash txs) × Within dec (map_with tx_hash txs) hashes)
      × Accepts dec
          (validate_receipts dec headers receipts)
          (Within dec (seconds receipts) (receipt_roots headers))
      × Accepts dec_pair
          (validate_block_bodies dec_pair headers bodies)
          (Within dec_pair (seconds bodies) (body_keys headers))
unfolding validate_node_data validate_pooled_transactions validate_receipts validate_block_bodies
validators_lem dec dec_pair tx_hash hashes headers nodes txs receipts bodies = (
  unique_keys_lem dec hashes (firsts nodes),
  unique_keys_lem dec hashes (map_with tx_hash txs),
  keys_lem dec (receipt_roots headers) (seconds receipts),
  keys_lem dec_pair (body_keys headers) (seconds bodies),
)
