-- ===== src/Headers/Response.antt =====
-- trinity/protocol/common/validators.py, `BaseBlockHeadersValidator`: which headers answer a request.
use trinity.Prelude.{
  ℕ, Bool, true, false, Option, none, some, List, [], ◌∷◌, ◌||◌, ◌&&◌, not, leb, if◌then◌else◌,
  elem, ℕ_discrete, ite,
}
use trinity.Prelude.Exec.{Result, validation_error, type_error}
use trinity.Prelude.Fallible.{pure, raise, raise_if, ◌>>=◌, ◌>>◌}
use trinity.Prelude.Bytes.{equal_bytes}
use trinity.Headers.Sequence.{sequence_builder}

pub data BlockIdentifier (K : Type 0) : Type 0 where
  number : ℕ → BlockIdentifier K
  hash : K → BlockIdentifier K

pub record Header (K : Type 0) : Type 0 where
  pub own_hash : K
  pub block_number : ℕ

pub record HeadersValidator (K : Type 0) : Type 0 where
  pub block_number_or_hash : BlockIdentifier K
  pub max_headers : ℕ
  pub skip : ℕ
  pub reverse : Bool
  pub protocol_max_request_size : ℕ

abbrev pub is_numbered : {K : Type 0} → BlockIdentifier K → Bool
is_numbered (number n) = true
is_numbered (hash h) = false

abbrev pub block_numbers : {K : Type 0} → List (Header K) → List ℕ
block_numbers [] = []
block_numbers (h ∷ hs) = h.block_number ∷ block_numbers hs

-- `sorted(numbers, reverse=reverse)`
abbrev pub ordered : Bool → ℕ → ℕ → Bool
ordered false a b = leb a b
ordered true a b = leb b a

abbrev pub insert_in : Bool → ℕ → List ℕ → List ℕ
insert_in reverse n [] = n ∷ []
insert_in reverse n (m ∷ ms) =
    let later = m ∷ insert_in reverse n ms in if ordered reverse n m then n ∷ m ∷ ms else later

abbrev pub sorted : Bool → List ℕ → List ℕ
sorted reverse [] = []
sorted reverse (n ∷ ns) = insert_in reverse n (sorted reverse ns)

abbrev pub all_in : List ℕ → List ℕ → Bool
all_in [] expected = true
all_in (n ∷ ns) expected = elem ℕ_discrete n expected && all_in ns expected

abbrev pub has_repeated : List ℕ → Bool
has_repeated [] = false
has_repeated (n ∷ ns) = elem ℕ_discrete n ns || has_repeated ns

module _ {K : Type 0} (dec : Discrete K) (request : HeadersValidator K) where
  unfoldable pub build : ℕ → Result (List ℕ)
  build block_number =
      sequence_builder block_number
        (if leb request.protocol_max_request_size request.max_headers
          then request.protocol_max_request_size
          else request.max_headers)
        request.skip request.reverse

  -- `_generate_block_numbers`
  unfoldable pub generate_block_numbers : BlockIdentifier K → Option ℕ → Result (List ℕ)
  generate_block_numbers (hash h) none = raise type_error
  generate_block_numbers (number n) (some block_number) = raise type_error
  generate_block_numbers (number n) none = build n
  generate_block_numbers (hash h) (some block_number) = build block_number

  -- `block_numbers[0]` only where the request is by hash
  abbrev pub first_number : ℕ → Option ℕ
  first_number n = if is_numbered request.block_number_or_hash then none else some n

  unfoldable pub validate_sequence : List ℕ → Result {0} Unit
  validate_sequence [] = pure tt
  validate_sequence (n ∷ ns) = do
    expected_numbers ← generate_block_numbers request.block_number_or_hash (first_number n)
    raise_if validation_error (not (all_in (n ∷ ns) expected_numbers))
    raise_if validation_error (not (equal_bytes (n ∷ ns) (sorted request.reverse (n ∷ ns))))
    raise_if validation_error (has_repeated (n ∷ ns))

  abbrev pub other_hash : BlockIdentifier K → K → Bool
  other_hash (number n) own = false
  other_hash (hash h) own = ite (dec own h) false true

  unfoldable pub validate_result : List (Header K) → Result {0} Unit
  validate_result [] = pure tt
  validate_result (header ∷ headers) = do
    raise_if validation_error (other_hash request.block_number_or_hash header.own_hash)
    validate_sequence (block_numbers (header ∷ headers))
