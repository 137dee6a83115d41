-- ===== src/Kademlia/Tests.antt =====
-- Runs of the routing table, and its theorems at concrete inputs.
use mathlib.Core.List.{flatten, Perm}
use trinity.Prelude.{
  ℕ, suc, ◌↔◌, elem, ◌+◌, ◌*◌, ◌^◌, ◌≤◌, ◌<◌, ◌≡◌, ◌⊎◌, refl, true, false, some, List, [], ◌∷◌,
  arith, ℕ_discrete, bit_length, get_elem?,
}
use trinity.Prelude.Exec.{ok, err, value_error}
use trinity.Prelude.Int.{pos, negsuc, pos_part, ◌-ℤ◌}
use trinity.Kademlia.{
  NodeId, RoutingTable, init, compute_distance, compute_log_distance, append_right, replace_removed,
  vacated, forget_replacement, get_index_bucket_and_replacement_cache, update_bucket_unchecked,
  update, remove_node, contains, is_empty, is_nil, last?, get_nodes_at_log_distance,
  get_least_recently_updated_log_distance, insert_by, sorted_by, iter_nodes_around,
}
use trinity.Kademlia.Distance.{log_distance_lem, index_of}
use trinity.Kademlia.Invariant.{IsTable, Found, init-IsTable}
use trinity.Kademlia.Update
use trinity.Kademlia.Removal
use trinity.Kademlia.Queries
use trinity.Kademlia.Queries.{SortedBy, InBuckets}

program : Unit {0}
unfolding init compute_distance compute_log_distance append_right replace_removed vacated
    forget_replacement get_index_bucket_and_replacement_cache update_bucket_unchecked update
    remove_node contains is_empty get_nodes_at_log_distance get_least_recently_updated_log_distance
    insert_by sorted_by iter_nodes_around ◌-ℤ◌ ℕ_discrete bit_length
program = tt

-- Center 0 and buckets of two: 4, 5 and 6 share the bucket 2.
abbrev table : RoutingTable
table = init 0 2

abbrev one : RoutingTable
one = (update 4 table).1

abbrev two : RoutingTable
two = (update 5 one).1

abbrev three : RoutingTable
three = (update 6 two).1

eviction : (update 6 two).0 ≡ ok (some 4)
unfolding program
eviction = refl

promoted : (get_nodes_at_log_distance (pos 3) (remove_node 5 three).1).0 ≡ ok (4 ∷ 6 ∷ [])
unfolding program
promoted = refl

table-IsTable : IsTable table
table-IsTable = init-IsTable 0 2 (omega arith) (omega arith)

one-IsTable : IsTable one
one-IsTable = Update.update-IsTable table 4 table-IsTable (omega arith)

two-IsTable : IsTable two
two-IsTable = Update.update-IsTable one 5 one-IsTable (omega arith)

three-IsTable : IsTable three
three-IsTable = Update.update-IsTable two 6 two-IsTable (omega arith)

center-three : three.center_node_id ≡ 0
unfolding program
center-three = refl

log_distance_example :
    (d : ℕ) × (compute_log_distance 0 6 three ≡ (ok d, three))
    × (d ≡ index_of 0 6 + 1)
    × (d ≤ 256)
    × (2 ^ d ≤ 2 * compute_distance 0 6)
    × (compute_distance 0 6 < 2 ^ d)
log_distance_example = log_distance_lem 0 6 (omega arith) (omega arith) (omega arith) three

update-IsTable_example : IsTable (update 6 two).1
update-IsTable_example = Update.update-IsTable two 6 two-IsTable (omega arith)

update_cases_example :
    (b : List NodeId) × (c : List NodeId) × Found two 6 b c × Update.Updated two 6 b c
unfolding program
update_cases_example = Update.update_cases two 6 two-IsTable (omega arith) (omega arith)

remove_node_example :
    (t' : RoutingTable) × (remove_node 5 three ≡ (ok tt, t'))
    × IsTable t'
    × (contains 5 true t' ≡ (ok false, t'))
unfolding program
remove_node_example = Removal.remove_node_lem three 5 three-IsTable (omega arith) (omega arith)

not_positive : (get_nodes_at_log_distance (negsuc 2) three).0 ≡ err value_error
unfolding program
not_positive = refl

nodes_at_log_distance_example :
    ((k : ℕ) × (nodes : List NodeId) × (pos 3 ≡ pos (suc k))
      × (k < 256)
      × (get_nodes_at_log_distance (pos 3) three ≡ (ok nodes, three))
      × ((n : NodeId)
          → (elem ℕ_discrete n nodes ≡ true)
            ↔ (InBuckets three n × (index_of three.center_node_id n ≡ k))))
    ⊎ ((get_nodes_at_log_distance (pos 3) three ≡ (err value_error, three))
        × ((pos_part (pos 3) ≡ 0) ⊎ (256 < pos_part (pos 3))))
nodes_at_log_distance_example = Queries.nodes_at_log_distance_lem three (pos 3) three-IsTable

iter_nodes_around_example :
    SortedBy (compute_distance 6) (iter_nodes_around 6 three)
    × Perm (iter_nodes_around 6 three) (flatten three.buckets)
iter_nodes_around_example = Queries.iter_nodes_around_lem 6 three

least_recently_updated_example :
    ((is_empty three ≡ true)
      × (get_least_recently_updated_log_distance three ≡ (err value_error, three)))
    ⊎ ((i : ℕ) × (b : List NodeId) × (is_empty three ≡ false)
        × (get_least_recently_updated_log_distance three ≡ (ok (i + 1), three))
        × (last? three.bucket_update_order ≡ some i)
        × (get_elem? three.buckets i ≡ some b)
        × (is_nil b ≡ false))
least_recently_updated_example = Queries.least_recently_updated_lem three three-IsTable
