-- ===== src/Requests/Answers.antt =====
-- What one peer answers, the other one accepts.
use trinity.Prelude.{
  ℕ, sym, ◌/◌, ◌≤◌, ◌≡◌, ◌∙◌, refl, ap, subst, false, some, List, [], ◌∷◌, arith, ltb, leb,
  if◌then◌else◌, List-cases, Option-cases, inl, inr,
}
use trinity.Prelude.Exec.{ok}
use trinity.Prelude.Int.{pos}
use trinity.Headers.Sequence.{
  range, within, step_of, sequence_builder, uint_256_max, maximum_object_memory_bytes,
}
use trinity.Headers.Response.{
  BlockIdentifier, number, hash, Header, HeadersValidator, build, validate_result,
}
use trinity.Headers.Order.{Strict}
use trinity.Headers.Answer.{AllIn, HasHash, origin, validate_result_lem}
use trinity.Requests.Server.{
  BlockHeader, ChainDb, BlockHeadersQuery, start_number, available_headers, headers_from,
  lookup_headers,
}
use trinity.Requests.Numbers.{within-Strict}
use trinity.Requests.Available.{
  summaries, numbers, AllIn_of, IsChain, validator_of, StartsCanonical, available_lem,
  first_available, empty_accepted,
}

module _ {K Transactions Uncles Receipts Node : Type 0} (dec : Discrete K)
    (db : ChainDb K Transactions Uncles Receipts Node) where
  module _ (chain : IsChain dec db) where
    module _ (most : ℕ) (query : BlockHeadersQuery K) (few : query.max_headers ≤ most)
        (fits : query.max_headers ≤ 1250000) where
      abbrev request : HeadersValidator K
      request = validator_of dec db most query

      abbrev sequence : ℕ → List ℕ
      sequence start =
          within uint_256_max
            (range query.max_headers (pos start) (step_of query.skip query.reverse))

      sequence_lem :
          (start : ℕ)
          → sequence_builder start query.max_headers query.skip query.reverse ≡ ok (sequence start)
      unfolding sequence_builder
      sequence_lem start =
          let small : ltb (maximum_object_memory_bytes / 8) query.max_headers ≡ false =
            ground arith in
          rw small refl

      build_lem : (start : ℕ) → build dec request start ≡ ok (sequence start)
      unfolding build
      build_lem start =
          let size : (if leb most query.max_headers then most else query.max_headers)
              ≡ query.max_headers =
            ground arith in
          rw size (sequence_lem start)

      -- An answer whose first header fits the query is accepted.
      accepted :
          (start : ℕ)
          → ((h : BlockHeader K) (hs : List (BlockHeader K))
              → available_headers dec db (sequence start) ≡ h ∷ hs
              → HasHash dec request query.block_number_or_hash h.own_hash
                × (origin dec request query.block_number_or_hash h.block_number ≡ start))
          → validate_result dec request (summaries (available_headers dec db (sequence start)))
            ≡ ok tt
      accepted start first = elim (List-cases (available_headers dec db (sequence start))) [
        | inl e ↦ rw e (empty_accepted dec db chain most query)
        | inr (h, hs, e) ↦
            let (same, at) = first h hs e in
            let built = ap (build dec request) at ∙ build_lem start in
            let (inside, strict) =
              available_lem dec db chain query.reverse (sequence start) (sequence start)
                (AllIn_of (sequence start) (sequence start) (λ n k. k))
                (within-Strict query.reverse uint_256_max query.max_headers start query.skip) in
            let answer =
              subst (λ bs. AllIn (numbers bs) (sequence start) × Strict query.reverse (numbers bs))
                e (inside, strict) in
            let own : Header K = record { own_hash = h.own_hash; block_number = h.block_number } in
            rw e
              (elim (validate_result_lem dec request own (summaries hs) (sequence start) built).1 [
                | inl (yes_, is_answer) ↦ yes_
                | inr (no_, is_none) ↦ absurd (is_none (same, answer))
              ])
      ]

      found_hash :
          (k : K) (h : BlockHeader K)
          → db.get_block_header_by_hash k ≡ some h
          → query.block_number_or_hash ≡ hash k
          → StartsCanonical dec db (hash k)
          → validate_result dec request
              (summaries (available_headers dec db (sequence h.block_number)))
            ≡ ok tt
      found_hash k h found e canonical =
          let (at, low) = canonical h found in
          accepted h.block_number (λ g gs p.
            let same : g ≡ h =
              first_available dec db chain uint_256_max query.max_headers h.block_number
                (step_of query.skip query.reverse) h g gs at low p in
            let own : g.own_hash ≡ k = ap (λ b. b.own_hash) same ∙ chain.hashed k h found in
            (
              subst (λ i. HasHash dec request i g.own_hash) (sym e) own,
              ap (λ i. origin dec request i g.block_number) e ∙ ap (λ b. b.block_number) same,
            ))

      answered :
          (ident : BlockIdentifier K)
          → query.block_number_or_hash ≡ ident
          → StartsCanonical dec db ident
          → (headers : List (BlockHeader K)) × (headers_from dec db query
                (start_number dec db ident)
              ≡ ok headers)
            × (validate_result dec request (summaries headers) ≡ ok tt)
      unfolding headers_from start_number
      answered (number n) e canonical = (
        available_headers dec db (sequence n),
        rw (sequence_lem n) refl,
        accepted n (λ h hs p. (
          subst (λ i. HasHash dec request i h.own_hash) (sym e) tt,
          ap (λ i. origin dec request i h.block_number) e,
        )),
      )
      answered (hash k) e canonical = elim (Option-cases (db.get_block_header_by_hash k)) [
        | inl missing ↦ ([], rw missing refl, empty_accepted dec db chain most query)
        | inr (h, found) ↦ (
          available_headers dec db (sequence h.block_number),
          rw (found, sequence_lem h.block_number) refl,
          found_hash k h found e canonical,
        )
      ]

  -- A query for no more headers than the protocol and the memory allow is answered without an
  -- error, and the answer passes the validator of the peer that asked, whether by a number or by a
  -- hash: where the hash is known, its header has to be the canonical one of its number.
  pub lookup_headers-accepted :
      (most : ℕ) (query : BlockHeadersQuery K)
      → IsChain dec db
      → query.max_headers ≤ most
      → query.max_headers ≤ 1250000
      → StartsCanonical dec db query.block_number_or_hash
      → (headers : List (BlockHeader K)) × (lookup_headers dec db query ≡ ok headers)
        × (validate_result dec (validator_of dec db most query) (summaries headers) ≡ ok tt)
  unfolding lookup_headers
  lookup_headers-accepted most query chain few fits canonical =
      answered chain most query few fits query.block_number_or_hash refl canonical
