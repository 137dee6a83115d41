-- ===== src/Kademlia.antt =====
-- The routing table of p2p/kademlia.py. A node id is the number that its 32 bytes spell
-- (`big_endian_to_int`), and the table is a state that each method reads and writes.
pub mod Distance
pub mod Slots
pub mod Invariant
pub mod Update
pub mod Removal
pub mod Queries
mod Tests
use Prim.Native.Nat.{bit_xor}
use trinity.Prelude.{
  ℕ, zero, suc, ◌+◌, ◌-◌, ◌^◌, List, [], ◌∷◌, ◌++◌, Option, none, some, Bool, true, false, ◌==◌,
  leb, ltb, ◌&&◌, if◌then◌else◌, not, length, get_elem?, set, take, replicate, elem, remove,
  ℕ_discrete, bit_length,
}
use mathlib.Core.List.{flatten}
use trinity.Prelude.Int.{ℤ, pos, negsuc, ◌-ℤ◌, leb_ℤ}
use trinity.Prelude.Exec.{
  Exec, value_error, index_error, pure, gets, require, modify, raise_if, ◌>>=◌, ◌>>◌,
}

abbrev pub NodeId : Type 0
NodeId = ℕ

-- p2p/constants.py
abbrev pub num_routing_table_buckets : ℕ
num_routing_table_buckets = 256

pub record RoutingTable : Type 0 where
  pub center_node_id : NodeId
  pub bucket_size : ℕ
  pub buckets : List (List NodeId)
  pub replacement_caches : List (List NodeId)
  pub bucket_update_order : List ℕ

unfoldable pub init : NodeId → ℕ → RoutingTable
init center_node_id bucket_size = record {
  center_node_id = center_node_id;
  bucket_size = bucket_size;
  buckets = replicate num_routing_table_buckets [];
  replacement_caches = replicate num_routing_table_buckets [];
  bucket_update_order = [];
}

unfoldable pub compute_distance : NodeId → NodeId → ℕ
compute_distance left right = bit_xor left right

unfoldable pub compute_log_distance : {S : Type 0} → NodeId → NodeId → Exec S ℕ
compute_log_distance left right = do
  raise_if value_error (left == right)
  pure (bit_length (compute_distance left right))

-- `deque[-1]`
abbrev pub last? : List NodeId → Option NodeId
last? [] = none
last? (x ∷ []) = some x
last? (x ∷ y ∷ xs) = last? (y ∷ xs)

-- `appendleft` on a deque with `maxlen`: what no longer fits falls off the other end.
abbrev pub append_left : ℕ → NodeId → List NodeId → List NodeId
append_left maxlen x xs = take maxlen (x ∷ xs)

-- `append` on a deque with `maxlen`: a full deque drops its first entry.
abbrev drop_first : List NodeId → List NodeId
drop_first [] = []
drop_first (x ∷ xs) = xs

unfoldable pub append_right : ℕ → List NodeId → NodeId → List NodeId
append_right zero xs x = []
append_right (suc m) xs x =
    if leb (suc m) (length xs) then drop_first xs ++ x ∷ [] else xs ++ x ∷ []

-- `self.buckets[i] = ...`, `self.replacement_caches[i] = ...` in place.
abbrev pub store : ℕ → List NodeId → List NodeId → RoutingTable → RoutingTable
store i bucket cache t = record t {
  buckets = set t.buckets i bucket;
  replacement_caches = set t.replacement_caches i cache;
}

unfoldable pub get_index_bucket_and_replacement_cache :
    NodeId → Exec RoutingTable (ℕ × List NodeId × List NodeId)
get_index_bucket_and_replacement_cache node_id = do
  center ← gets (λ t. t.center_node_id)
  distance ← compute_log_distance center node_id
  bucket ← λ t. require index_error (get_elem? t.buckets (distance - 1)) t
  cache ← λ t. require index_error (get_elem? t.replacement_caches (distance - 1)) t
  pure (distance - 1, bucket, cache)

unfoldable pub update_bucket_unchecked : NodeId → Exec RoutingTable Unit
update_bucket_unchecked node_id = do
  (i, bucket, cache) ← get_index_bucket_and_replacement_cache node_id
  size ← gets (λ t. t.bucket_size)
  modify (
      store i (append_left size node_id (remove ℕ_discrete node_id bucket))
        (remove ℕ_discrete node_id cache))
  modify (λ t. record t { bucket_update_order = i ∷ remove ℕ_discrete i t.bucket_update_order })

-- The eviction candidate is the oldest node of a full bucket.
unfoldable pub update : NodeId → Exec RoutingTable (Option NodeId)
update node_id = do
  center ← gets (λ t. t.center_node_id)
  raise_if value_error (node_id == center)
  (i, bucket, cache) ← get_index_bucket_and_replacement_cache node_id
  size ← gets (λ t. t.bucket_size)
  if elem ℕ_discrete node_id bucket
      then (do update_bucket_unchecked node_id; pure none)
      else if not (leb size (length bucket))
      then (do update_bucket_unchecked node_id; pure none)
      else do
        modify (store i bucket (node_id ∷ remove ℕ_discrete node_id cache))
        candidate ← require index_error (last? bucket)
        pure (some candidate)

-- The newest entry of the replacement cache takes the place of a node that leaves its bucket.
unfoldable pub replace_removed : ℕ → NodeId → List NodeId → List NodeId → List NodeId × List NodeId
unfolding append_right
replace_removed size node_id bucket [] = (remove ℕ_discrete node_id bucket, [])
replace_removed size node_id bucket (x ∷ cache) =
    (append_right size (remove ℕ_discrete node_id bucket) x, cache)

-- `if in_bucket`.
unfoldable pub vacated : ℕ → NodeId → List NodeId → List NodeId → List NodeId × List NodeId
unfolding replace_removed
vacated size node_id bucket cache =
    if elem ℕ_discrete node_id bucket
    then replace_removed size node_id bucket cache
    else (bucket, cache)

abbrev pub is_nil : List NodeId → Bool
is_nil [] = true
is_nil (x ∷ xs) = false

-- `if in_replacement_cache`: `deque.remove` raises where the node is gone already.
unfoldable pub forget_replacement : ℕ → NodeId → List NodeId → List NodeId → Exec RoutingTable Unit
forget_replacement i node_id bucket cache = do
  raise_if value_error (not (elem ℕ_discrete node_id cache))
  modify (store i bucket (remove ℕ_discrete node_id cache))

unfoldable pub remove_node : NodeId → Exec RoutingTable Unit
remove_node node_id = do
  (i, bucket, cache) ← get_index_bucket_and_replacement_cache node_id
  size ← gets (λ t. t.bucket_size)
  let bucket' = (vacated size node_id bucket cache).0
  let cache' = (vacated size node_id bucket cache).1
  modify (store i bucket' cache')
  if elem ℕ_discrete node_id cache then forget_replacement i node_id bucket' cache' else pure tt
  if is_nil bucket'
      then modify
          (λ t. record t { bucket_update_order = remove ℕ_discrete i t.bucket_update_order })
      else pure tt

-- `xs[i]`, which counts a negative index from the end.
abbrev pub get_item : {A : Type 0} → List A → ℤ → Option A
get_item xs (pos i) = get_elem? xs i
get_item xs (negsuc i) = if leb (suc i) (length xs) then get_elem? xs (length xs - suc i) else none

unfoldable pub get_nodes_at_log_distance : ℤ → Exec RoutingTable (List NodeId)
get_nodes_at_log_distance log_distance = do
  raise_if value_error (leb_ℤ log_distance (pos 0))
  count ← gets (λ t. length t.buckets)
  raise_if value_error (not (leb_ℤ log_distance (pos count)))
  λ t. require index_error (get_item t.buckets (log_distance -ℤ pos 1)) t

abbrev all_nil : List (List NodeId) → Bool
all_nil [] = true
all_nil (b ∷ bs) = is_nil b && all_nil bs

unfoldable pub is_empty : RoutingTable → Bool
is_empty t = all_nil t.buckets

unfoldable pub get_least_recently_updated_log_distance : Exec RoutingTable ℕ
get_least_recently_updated_log_distance = do
  bucket_index ← λ t. require value_error (last? t.bucket_update_order) t
  pure (bucket_index + 1)

unfoldable pub contains : NodeId → Bool → Exec RoutingTable Bool
contains node_id include_replacement_cache = do
  (_, bucket, cache) ← get_index_bucket_and_replacement_cache node_id
  pure (
      if include_replacement_cache
      then elem ℕ_discrete node_id (bucket ++ cache)
      else elem ℕ_discrete node_id bucket)

-- `sorted` with a key is stable: an element goes in front of the first one whose key is not less.
unfoldable pub insert_by : (NodeId → ℕ) → NodeId → List NodeId → List NodeId
insert_by key x [] = x ∷ []
insert_by key x (y ∷ ys) = if leb (key x) (key y) then x ∷ y ∷ ys else y ∷ insert_by key x ys

unfoldable pub sorted_by : (NodeId → ℕ) → List NodeId → List NodeId
unfolding insert_by
sorted_by key [] = []
sorted_by key (x ∷ xs) = insert_by key x (sorted_by key xs)

unfoldable pub iter_nodes_around : NodeId → RoutingTable → List NodeId
unfolding sorted_by compute_distance
iter_nodes_around reference t = sorted_by (compute_distance reference) (flatten t.buckets)
