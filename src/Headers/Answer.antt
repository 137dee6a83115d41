-- ===== src/Headers/Answer.antt =====
-- What `validate_result` accepts.
use trinity.Prelude.{
  ℕ, ◌≡◌, ◌⊎◌, inl, inr, refl, sym, subst, ◌∙◌, true, false, Bool, List, [], ◌∷◌, arith, elem,
  ℕ_discrete, Bool-cases, if_pos, if_neg, none, some, if◌then◌else◌,
}
use trinity.Prelude.Exec.{ok, err, validation_error}
use trinity.Prelude.Bytes.{equal_bytes, equal_bytes_iff}
use trinity.Headers.Response.{
  HeadersValidator, Header, BlockIdentifier, number, hash, is_numbered, sorted, has_repeated,
  all_in, generate_block_numbers, build, validate_sequence, validate_result, other_hash,
  block_numbers, first_number,
}
use trinity.Headers.Order.{
  Strict, Ordered, Ordered-Strict, sorted_fixed, not_repeated, sorted-Ordered,
}

abbrev pub AllIn : List ℕ → List ℕ → Type 0
AllIn [] expected = Unit
AllIn (n ∷ ns) expected = (elem ℕ_discrete n expected ≡ true) × AllIn ns expected

all_in-AllIn : (ns expected : List ℕ) → all_in ns expected ≡ true → AllIn ns expected
all_in-AllIn [] expected h = tt
all_in-AllIn (n ∷ ns) expected h = (ground arith, all_in-AllIn ns expected (ground arith))

AllIn-all_in : (ns expected : List ℕ) → AllIn ns expected → all_in ns expected ≡ true
AllIn-all_in [] expected h = refl
AllIn-all_in (n ∷ ns) expected h = let rest = AllIn-all_in ns expected h.1 in ground arith

module _ {K : Type 0} (dec : Discrete K) (request : HeadersValidator K) where
  -- The number that the sequence starts from.
  abbrev pub origin : BlockIdentifier K → ℕ → ℕ
  origin (number n) first = n
  origin (hash h) first = first

  abbrev pub IsAnswer : List ℕ → List ℕ → Type 0
  IsAnswer expected ns = AllIn ns expected × Strict request.reverse ns

  generated :
      (first : ℕ)
      → generate_block_numbers dec request request.block_number_or_hash
          (first_number dec request first)
        ≡ build dec request (origin request.block_number_or_hash first)
  unfolding generate_block_numbers
  generated first = of request.block_number_or_hash
    where
      of :
          (ident : BlockIdentifier K)
          → generate_block_numbers dec request ident
              (if is_numbered ident then none else some first)
            ≡ build dec request (origin ident first)
      of (number n) = refl
      of (hash h) = refl

  -- Against the numbers that the request means, `_validate_sequence` accepts exactly the numbers
  -- that are among them and strictly increase, or decrease for a reverse request; it raises a
  -- ValidationError for any others.
  pub validate_sequence_lem :
      (n : ℕ) (ns expected : List ℕ)
      → build dec request (origin request.block_number_or_hash n) ≡ ok expected
      → ((validate_sequence dec request (n ∷ ns) ≡ ok tt) × IsAnswer expected (n ∷ ns))
        ⊎ ((validate_sequence dec request (n ∷ ns) ≡ err validation_error)
            × ¬ IsAnswer expected (n ∷ ns))
  unfolding validate_sequence
  validate_sequence_lem n ns expected built =
      let start = generated n ∙ built in
      elim (Bool-cases (all_in (n ∷ ns) expected)) [
        | inr out ↦ inr (
          rw (start, out) refl,
          λ answer. true_false (AllIn-all_in (n ∷ ns) expected answer.0) out,
        )
        | inl inside ↦ elim (Bool-cases (equal_bytes (n ∷ ns) (sorted request.reverse (n ∷ ns)))) [
          | inr mixed ↦ inr (
            rw (start, inside, mixed) refl,
            λ answer.
                true_false
                  ((equal_bytes_iff (n ∷ ns) (sorted request.reverse (n ∷ ns))).1
                    (sym (sorted_fixed request.reverse (n ∷ ns) answer.1)))
                  mixed,
          )
          | inl in_order ↦ elim (Bool-cases (has_repeated (n ∷ ns))) [
            | inl twice ↦ inr (
              rw (start, inside, in_order, twice) refl,
              λ answer. true_false twice (not_repeated request.reverse (n ∷ ns) answer.1),
            )
            | inr once ↦ inl (
              rw (start, inside, in_order, once) refl,
              (
                all_in-AllIn (n ∷ ns) expected inside,
                Ordered-Strict request.reverse (n ∷ ns)
                    (subst (Ordered request.reverse) (sorted-same in_order)
                      (sorted-Ordered request.reverse (n ∷ ns)))
                    once,
              ),
            )
          ]
        ]
      ]
    where
      true_false : {b : Bool} → b ≡ true → b ≡ false → ⊥
      true_false p q = cc

      sorted-same :
          equal_bytes (n ∷ ns) (sorted request.reverse (n ∷ ns)) ≡ true
          → sorted request.reverse (n ∷ ns) ≡ n ∷ ns
      sorted-same h = sym ((equal_bytes_iff (n ∷ ns) (sorted request.reverse (n ∷ ns))).0 h)

  -- The first header has the hash that was asked for, if one was.
  abbrev pub HasHash : BlockIdentifier K → K → Type 0
  HasHash (number n) own = Unit
  HasHash (hash h) own = own ≡ h

  hash_cases :
      (ident : BlockIdentifier K) (own : K)
      → ((other_hash dec request ident own ≡ false) × HasHash ident own)
        ⊎ ((other_hash dec request ident own ≡ true) × ¬ HasHash ident own)
  hash_cases (number n) own = inl (refl, tt)
  hash_cases (hash h) own = elim (dec own h) [
    | yes e ↦ inl (if_pos (dec own h) e false true, e)
    | no ne ↦ inr (if_neg (dec own h) ne false true, ne)
  ]

  abbrev pub IsResponse : List ℕ → Header K → List (Header K) → Type 0
  IsResponse expected header headers =
      HasHash request.block_number_or_hash header.own_hash
      × IsAnswer expected (block_numbers (header ∷ headers))

  -- For a request whose numbers fit in memory, `validate_result` accepts exactly the responses that
  -- start with the hash that was asked for, if one was, and whose numbers are among those of the
  -- request and strictly increase, or decrease for a reverse request. It raises a ValidationError
  -- for any other response but the empty one.
  pub validate_result_lem :
      (header : Header K) (headers : List (Header K)) (expected : List ℕ)
      → build dec request (origin request.block_number_or_hash header.block_number) ≡ ok expected
      → (validate_result dec request [] ≡ ok tt)
        × (((validate_result dec request (header ∷ headers) ≡ ok tt)
              × IsResponse expected header headers)
            ⊎ ((validate_result dec request (header ∷ headers) ≡ err validation_error)
                × ¬ IsResponse expected header headers))
  unfolding validate_result
  validate_result_lem header headers expected built = (
    refl,
    elim (hash_cases request.block_number_or_hash header.own_hash) [
      | inr (other, not_asked) ↦ inr (rw other refl, λ answer. not_asked answer.0)
      | inl (same, asked) ↦
          elim (validate_sequence_lem header.block_number (block_numbers headers) expected built) [
            | inl (run, answer) ↦ inl (rw same run, (asked, answer))
            | inr (run, no_answer) ↦ inr (rw same run, λ answer. no_answer answer.1)
          ]
    ],
  )
