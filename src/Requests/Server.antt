-- ===== src/Requests/Server.antt =====
-- `BasePeerRequestHandler` and `ETHPeerRequestHandler`. The database is a parameter that has what it
-- is asked for or not, and a handler returns what it would send.
use trinity.Prelude.{ℕ, Bool, Option, none, some, List, [], ◌∷◌, take}
use trinity.Prelude.Exec.{Result, ok, err}
use trinity.Headers.Response.{BlockIdentifier, number, hash}
use trinity.Headers.Sequence.{sequence_builder}
use trinity.TaskQueue.Queue.{members}

pub record BlockHeader (K : Type 0) : Type 0 where
  pub own_hash : K
  pub block_number : ℕ
  pub transaction_root : K
  pub uncles_hash : K
  pub receipt_root : K

-- trinity/rlp/block_body.py
pub record BlockBody (Transactions Uncles : Type 0) : Type 0 where
  pub transactions : Transactions
  pub uncles : Uncles

-- The lookups that raise HeaderNotFound, MissingTrieNode or KeyError for what is missing.
pub record ChainDb (K Transactions Uncles Receipts Node : Type 0) : Type 0 where
  pub get_block_header_by_hash : K → Option (BlockHeader K)
  pub get_canonical_block_header_by_number : ℕ → Option (BlockHeader K)
  pub get_block_transactions : BlockHeader K → Option Transactions
  pub get_block_uncles : K → Option Uncles
  pub get_receipts : BlockHeader K → Option Receipts
  pub get_node : K → Option Node

-- trinity/protocol/common/payloads.py
pub record BlockHeadersQuery (K : Type 0) : Type 0 where
  pub block_number_or_hash : BlockIdentifier K
  pub max_headers : ℕ
  pub skip : ℕ
  pub reverse : Bool

abbrev pub max_state_fetch : ℕ
max_state_fetch = 384

abbrev pub max_bodies_fetch : ℕ
max_bodies_fetch = 128

abbrev pub max_receipts_fetch : ℕ
max_receipts_fetch = 256

-- A list of those that are there, for a loop that goes on where one is missing.
abbrev pub cons_found : {A : Type 0} → Option A → List A → List A
cons_found none xs = xs
cons_found (some x) xs = x ∷ xs

-- The same for a loop that breaks where one is missing.
abbrev pub cons_or_stop : {A : Type 0} → Option A → List A → List A
cons_or_stop none xs = []
cons_or_stop (some x) xs = x ∷ xs

-- What is made of the value of a call that may raise.
abbrev pub map_ok : {A B : Type 0} → (A → B) → Result A → Result B
map_ok f (ok a) = ok (f a)
map_ok f (err e) = err e

-- The lookup after one that may raise.
infixl 10 ◌>>=◌
abbrev pub ◌>>=◌ : {A B : Type 0} → Option A → (A → Option B) → Option B
none >>= f = none
some a >>= f = f a

module _ {K Transactions Uncles Receipts Node : Type 0} (dec : Discrete K)
    (db : ChainDb K Transactions Uncles Receipts Node) where
  -- `none` is HeaderNotFound.
  unfoldable pub start_number : BlockIdentifier K → Option ℕ
  start_number (hash h) = do header ← db.get_block_header_by_hash h; some header.block_number
  start_number (number n) = some n

  -- `_generate_available_headers`
  unfoldable pub available_headers : List ℕ → List (BlockHeader K)
  available_headers [] = []
  available_headers (n ∷ ns) =
      cons_or_stop (db.get_canonical_block_header_by_number n) (available_headers ns)

  unfoldable pub headers_from : BlockHeadersQuery K → Option ℕ → Result (List (BlockHeader K))
  unfolding available_headers
  headers_from query none = ok []
  headers_from query (some start) =
      map_ok available_headers (sequence_builder start query.max_headers query.skip query.reverse)

  unfoldable pub lookup_headers : BlockHeadersQuery K → Result (List (BlockHeader K))
  unfolding start_number headers_from
  lookup_headers query = headers_from query (start_number query.block_number_or_hash)

  -- The body of one block, where its header, transactions and uncles are there.
  unfoldable pub block_body : K → Option (BlockBody Transactions Uncles)
  block_body block_hash = do
    header ← db.get_block_header_by_hash block_hash
    transactions ← db.get_block_transactions header
    uncles ← db.get_block_uncles header.uncles_hash
    some (record { transactions = transactions; uncles = uncles })

  unfoldable pub bodies_of : List K → List (BlockBody Transactions Uncles)
  unfolding block_body
  bodies_of [] = []
  bodies_of (block_hash ∷ hashes) = cons_found (block_body block_hash) (bodies_of hashes)

  unfoldable pub handle_get_block_bodies : List K → List (BlockBody Transactions Uncles)
  unfolding bodies_of
  handle_get_block_bodies block_hashes = bodies_of (take max_bodies_fetch block_hashes)

  unfoldable pub block_receipts : K → Option Receipts
  block_receipts block_hash = do
    header ← db.get_block_header_by_hash block_hash
    db.get_receipts header

  unfoldable pub receipts_of : List K → List Receipts
  unfolding block_receipts
  receipts_of [] = []
  receipts_of (block_hash ∷ hashes) = cons_found (block_receipts block_hash) (receipts_of hashes)

  unfoldable pub handle_get_receipts : List K → List Receipts
  unfolding receipts_of
  handle_get_receipts block_hashes = receipts_of (take max_receipts_fetch block_hashes)

  unfoldable pub nodes_of : List K → List Node
  nodes_of [] = []
  nodes_of (node_hash ∷ hashes) = cons_found (db.get_node node_hash) (nodes_of hashes)

  unfoldable pub handle_get_node_data : List K → List Node
  unfolding nodes_of
  handle_get_node_data node_hashes = nodes_of (members dec (take max_state_fetch node_hashes))
