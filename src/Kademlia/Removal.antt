-- ===== src/Kademlia/Removal.antt =====
-- `remove` of p2p/kademlia.py.
use trinity.Prelude.{
  ℕ, ◌≡◌, ◌≢◌, refl, true, false, set-set, List, [], ◌∷◌, ◌++◌, arith, elem, remove, ℕ_discrete,
  not, if◌then◌else◌, elem-remove, elem-append, get_elem?-set_self, remove-Distinct, remove_absent,
  Distinct,
}
use trinity.Prelude.Exec.{ok}
use trinity.Kademlia.{
  NodeId, RoutingTable, is_nil, remove_node, vacated, forget_replacement, contains,
  get_index_bucket_and_replacement_cache,
}
use trinity.Kademlia.Distance.{IsNodeId, index_of}
use trinity.Kademlia.Slots.{
  IsSlot, vacated-IsSlot, forget-IsSlot, elem-vacated_cache, elem-vacated_bucket,
}
use trinity.Kademlia.Invariant.{IsTable, Found, found, written, written-IsTable, access_again}

is_nil-vacated :
    (size : ℕ) (n : NodeId) (b c : List NodeId)
    → is_nil b ≡ true
    → is_nil (vacated size n b c).0 ≡ true
unfolding vacated
is_nil-vacated size n [] c h = refl
is_nil-vacated size n (x ∷ b) c h = cc

module _ (t : RoutingTable) (n : NodeId) (b c : List NodeId) where
  open t use {center_node_id, bucket_size, bucket_update_order}

  abbrev place : ℕ
  place = index_of center_node_id n

  -- The bucket and the cache after `if in_bucket`.
  abbrev after : List NodeId × List NodeId
  after = vacated bucket_size n b c

  abbrev order_after : List ℕ
  order_after =
      if is_nil after.0 then remove ℕ_discrete place bucket_update_order else bucket_update_order

  -- The table after a node has left it.
  unfoldable pub without_node : RoutingTable
  without_node = written place after.0 (remove ℕ_discrete n after.1) order_after t

module _ (t : RoutingTable) (n : NodeId) (b c : List NodeId) (v : IsTable t)
    (f : Found t n b c) where
  open t use {center_node_id, bucket_size, bucket_update_order}

  abbrev i : ℕ
  i = index_of center_node_id n

  slot : IsSlot center_node_id bucket_size i b c
  slot = v.slots i b c f.at_bucket f.at_cache

  order_after-Distinct : Distinct ℕ_discrete (order_after t n b c)
  order_after-Distinct =
      ground (arith, v.order_distinct, remove-Distinct ℕ_discrete i bucket_update_order)

  order_after_here : elem ℕ_discrete i (order_after t n b c) ≡ not (is_nil (after t n b c).0)
  order_after_here = ground (
    arith,
    elem-remove ℕ_discrete i i bucket_update_order v.order_distinct,
    v.order_exact i b f.at_bucket,
    is_nil-vacated bucket_size n b c,
  )

  order_after_others :
      (j : ℕ)
      → j ≢ i
      → elem ℕ_discrete j (order_after t n b c) ≡ elem ℕ_discrete j bucket_update_order
  order_after_others j ne =
      ground (arith, elem-remove ℕ_discrete i j bucket_update_order v.order_distinct)

  without_node-IsTable : IsTable (without_node t n b c)
  unfolding without_node
  without_node-IsTable =
      written-IsTable t i (after t n b c).0 (remove ℕ_discrete n (after t n b c).1)
        (order_after t n b c) v f.in_range
        (forget-IsSlot center_node_id bucket_size i n (after t n b c).0 (after t n b c).1
          (vacated-IsSlot center_node_id bucket_size i n b c slot))
        order_after-Distinct order_after_here order_after_others

  -- `remove` never raises, and writes the bucket, the cache and the update order.
  remove_node-without : remove_node n t ≡ (ok tt, without_node t n b c)
  unfolding remove_node forget_replacement without_node
  remove_node-without = ground (
    arith,
    f.access,
    elem-vacated_cache center_node_id bucket_size i n b c slot,
    remove_absent ℕ_discrete n (after t n b c).1,
    set-set t.buckets i (after t n b c).0 (after t n b c).0,
    set-set t.replacement_caches i (after t n b c).1 (remove ℕ_discrete n (after t n b c).1),
  )

  elem-without_node :
      elem ℕ_discrete n ((after t n b c).0 ++ remove ℕ_discrete n (after t n b c).1) ≡ false
  elem-without_node = ground (
    arith,
    elem-append ℕ_discrete n (after t n b c).0 (remove ℕ_discrete n (after t n b c).1),
    elem-vacated_bucket center_node_id bucket_size i n b c slot,
    elem-remove ℕ_discrete n n (after t n b c).1
        (vacated-IsSlot center_node_id bucket_size i n b c slot).cache_distinct,
  )

  contains-without_node : contains n true (without_node t n b c) ≡ (ok false, without_node t n b c)
  unfolding contains without_node
  contains-without_node = ground (arith, elem-without_node, refound)
    where
      refound :
          get_index_bucket_and_replacement_cache n (without_node t n b c)
          ≡ (ok (i, (after t n b c).0, remove ℕ_discrete n (after t n b c).1), without_node t n b c)
      refound =
          access_again t n (without_node t n b c) (after t n b c).0
            (remove ℕ_discrete n (after t n b c).1) v f refl
            (get_elem?-set_self t.buckets i (after t n b c).0
              (omega (arith, f.in_range, v.buckets_count)))
            (get_elem?-set_self t.replacement_caches i _
              (omega (arith, f.in_range, v.caches_count)))

-- `remove` of a node other than the center does not raise, keeps the invariant of the table, and
-- leaves a table that holds the node neither in a bucket nor in a replacement cache.
pub remove_node_lem :
    (t : RoutingTable) (n : NodeId)
    → IsTable t
    → IsNodeId n
    → n ≢ t.center_node_id
    → (t' : RoutingTable) × (remove_node n t ≡ (ok tt, t'))
      × IsTable t'
      × (contains n true t' ≡ (ok false, t'))
remove_node_lem t n v hn ne =
    let (b, c, f) = found t n v hn ne in
    (
      without_node t n b c,
      remove_node-without t n b c v f,
      without_node-IsTable t n b c v f,
      contains-without_node t n b c v f,
    )
