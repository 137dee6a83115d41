-- ===== src/Requests/Available.antt =====
-- The headers that a peer has, in the order of the numbers.
use trinity.Prelude.{
  ℕ, zero, suc, ◌≤◌, ◌≡◌, ◌∙◌, refl, sym, ap, Bool, true, false, none, some, List, [], ◌∷◌, elem,
  elem_head, elem_more, arith, leb, Option-cases, inl, inr, ℕ_discrete,
}
use trinity.Prelude.Exec.{ok}
use trinity.Prelude.Int.{ℤ, pos, ◌+ℤ◌}
use trinity.Headers.Sequence.{range, within, uint_256_max}
use trinity.Headers.Response.{
  BlockIdentifier, number, hash, Header, HeadersValidator, block_numbers, validate_result,
}
use trinity.Headers.Order.{Strict}
use trinity.Headers.Answer.{AllIn}
use trinity.Requests.Server.{BlockHeader, ChainDb, BlockHeadersQuery, available_headers}
use trinity.Requests.Numbers.{Beyond, cons-Strict}

abbrev pub summaries : {K : Type 0} → List (BlockHeader K) → List (Header K)
summaries [] = []
summaries (h ∷ hs) = record { own_hash = h.own_hash; block_number = h.block_number } ∷ summaries hs

abbrev pub numbers : {K : Type 0} → List (BlockHeader K) → List ℕ
numbers hs = block_numbers (summaries hs)

pub AllIn_of :
    (ns expected : List ℕ)
    → ((n : ℕ) → elem ℕ_discrete n ns ≡ true → elem ℕ_discrete n expected ≡ true)
    → AllIn ns expected
AllIn_of [] expected h = tt
AllIn_of (n ∷ ns) expected h = (
  h n (elem_head ℕ_discrete n ns),
  AllIn_of ns expected (λ m k. h m (elem_more ℕ_discrete m n ns k)),
)

tail-Strict : (reverse : Bool) (n : ℕ) (ns : List ℕ) → Strict reverse (n ∷ ns) → Strict reverse ns
tail-Strict reverse n [] s = tt
tail-Strict false n (m ∷ ms) s = s.1
tail-Strict true n (m ∷ ms) s = s.1

head-Beyond : (reverse : Bool) (n : ℕ) (ns : List ℕ) → Strict reverse (n ∷ ns) → Beyond reverse n ns
head-Beyond reverse n [] s = tt
head-Beyond false n (m ∷ ms) s = s.0
head-Beyond true n (m ∷ ms) s = s.0

nil-ne-cons : {A : Type 0} {x : A} {xs : List A} → [] ≡ x ∷ xs → ⊥
nil-ne-cons p = ground arith

cons_inj : {A : Type 0} {x y : A} {xs ys : List A} → x ∷ xs ≡ y ∷ ys → x ≡ y
cons_inj p = cc

same_Beyond :
    (reverse : Bool) (n m : ℕ) (ms ks : List ℕ)
    → Beyond reverse n (m ∷ ms)
    → Beyond reverse n (m ∷ ks)
same_Beyond false n m ms ks b = b
same_Beyond true n m ms ks b = b

module _ {K Transactions Uncles Receipts Node : Type 0} (dec : Discrete K)
    (db : ChainDb K Transactions Uncles Receipts Node) where
  -- The canonical header of a number has that number, and a header is found by its own hash.
  pub record IsChain : Type 0 where
    pub numbered :
        (n : ℕ) (h : BlockHeader K)
        → db.get_canonical_block_header_by_number n ≡ some h
        → h.block_number ≡ n
    pub hashed :
        (k : K) (h : BlockHeader K) → db.get_block_header_by_hash k ≡ some h → h.own_hash ≡ k

  available_found :
      (n : ℕ) (ns : List ℕ) (h : BlockHeader K)
      → db.get_canonical_block_header_by_number n ≡ some h
      → available_headers dec db (n ∷ ns) ≡ h ∷ available_headers dec db ns
  unfolding available_headers
  available_found n ns h e = rw e refl

  available_nil : available_headers dec db [] ≡ []
  unfolding available_headers
  available_nil = refl

  available_missing :
      (n : ℕ) (ns : List ℕ)
      → db.get_canonical_block_header_by_number n ≡ none
      → available_headers dec db (n ∷ ns) ≡ []
  unfolding available_headers
  available_missing n ns e = rw e refl

  -- The client's validator for a query.
  abbrev pub validator_of : ℕ → BlockHeadersQuery K → HeadersValidator K
  validator_of protocol_max_request_size query = record {
    block_number_or_hash = query.block_number_or_hash;
    max_headers = query.max_headers;
    skip = query.skip;
    reverse = query.reverse;
    protocol_max_request_size = protocol_max_request_size;
  }

  -- The header that a query by hash starts from is the canonical one of its number.
  abbrev pub StartsCanonical : BlockIdentifier K → Type 0
  StartsCanonical (number n) = Unit
  StartsCanonical (hash k) =
      (h : BlockHeader K)
      → db.get_block_header_by_hash k ≡ some h
      → (db.get_canonical_block_header_by_number h.block_number ≡ some h)
        × (h.block_number ≤ uint_256_max)

  module _ (chain : IsChain) where
    Beyond-available :
        (reverse : Bool) (n : ℕ) (ns : List ℕ)
        → Beyond reverse n ns
        → Beyond reverse n (numbers (available_headers dec db ns))
    Beyond-available reverse n [] b = rw available_nil tt
    Beyond-available reverse n (m ∷ ms) b =
        elim (Option-cases (db.get_canonical_block_header_by_number m)) [
          | inl e ↦ rw (available_missing m ms e) tt
          | inr (h, e) ↦
              rw (available_found m ms h e, chain.numbered m h e)
                (same_Beyond reverse n m ms (numbers (available_headers dec db ms)) b)
        ]

    pub available_lem :
        (reverse : Bool) (ns expected : List ℕ)
        → AllIn ns expected
        → Strict reverse ns
        → AllIn (numbers (available_headers dec db ns)) expected
          × Strict reverse (numbers (available_headers dec db ns))
    available_lem reverse [] expected a s = rw available_nil (tt, tt)
    available_lem reverse (n ∷ ns) expected a s =
        let (inside, strict) = available_lem reverse ns expected a.1 (tail-Strict reverse n ns s) in
        let beyond = Beyond-available reverse n ns (head-Beyond reverse n ns s) in
        elim (Option-cases (db.get_canonical_block_header_by_number n)) [
          | inl e ↦ rw (available_missing n ns e) (tt, tt)
          | inr (h, e) ↦
              rw (available_found n ns h e, chain.numbered n h e)
                (
                  (a.0, inside),
                  cons-Strict reverse n (numbers (available_headers dec db ns)) beyond strict,
                )
        ]

    pub first_available :
        (most count start : ℕ) (step : ℤ) (b h : BlockHeader K) (hs : List (BlockHeader K))
        → db.get_canonical_block_header_by_number start ≡ some b
        → start ≤ most
        → available_headers dec db (within most (range count (pos start) step)) ≡ h ∷ hs
        → h ≡ b
    first_available most zero start step b h hs e low k =
        absurd (nil-ne-cons (sym available_nil ∙ k))
    first_available most (suc count) start step b h hs e low k =
        let small : leb start most ≡ true = ground arith in
        let rest = within most (range count (pos start +ℤ step) step) in
        let kept : within most (range (suc count) (pos start) step) ≡ start ∷ rest =
          rw small refl in
        cons_inj (sym k ∙ ap (available_headers dec db) kept ∙ available_found start rest b e)

    pub empty_accepted :
        (most : ℕ) (query : BlockHeadersQuery K)
        → validate_result dec (validator_of most query) [] ≡ ok tt
    unfolding validate_result
    empty_accepted most query = refl
