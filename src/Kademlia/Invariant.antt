-- ===== src/Kademlia/Invariant.antt =====
-- The invariant of the routing table, and what `update` and `remove` do on a table that keeps it.
use trinity.Prelude.{
  ℕ, ◌+◌, ◌-◌, ◌<◌, ◌≡◌, ◌≢◌, refl, sym, ◌∙◌, ◌⊎◌, true, some, List, [], ◌∷◌, arith, length, elem,
  remove, set, Distinct, ℕ_discrete, elem-remove, not, get_elem?, get_elem?-some,
  get_elem?-set_self, get_elem?-set_ne, get_elem?-replicate, length-set, remove-Distinct,
  length-replicate,
}
use trinity.Prelude.Exec.{ok}
use trinity.Kademlia.{
  NodeId, RoutingTable, num_routing_table_buckets, init, store, is_nil, update_bucket_unchecked,
  get_index_bucket_and_replacement_cache, compute_log_distance,
}
use trinity.Kademlia.Distance.{IsNodeId, index_of, log_distance_lem}
use trinity.Kademlia.Slots.{IsSlot, empty-IsSlot, move_front, room, move_front-IsSlot}

pub record IsTable (t : RoutingTable) : Type 0 where
  pub center_valid : IsNodeId t.center_node_id
  pub positive : 0 < t.bucket_size
  pub buckets_count : length t.buckets ≡ num_routing_table_buckets
  pub caches_count : length t.replacement_caches ≡ num_routing_table_buckets
  pub slots :
      (i : ℕ) (b c : List NodeId)
      → get_elem? t.buckets i ≡ some b
      → get_elem? t.replacement_caches i ≡ some c
      → IsSlot t.center_node_id t.bucket_size i b c
  pub order_distinct : Distinct ℕ_discrete t.bucket_update_order
  pub order_exact :
      (i : ℕ) (b : List NodeId)
      → get_elem? t.buckets i ≡ some b
      → elem ℕ_discrete i t.bucket_update_order ≡ not (is_nil b)
  pub order_range :
      (i : ℕ) → elem ℕ_discrete i t.bucket_update_order ≡ true → i < num_routing_table_buckets

-- The bucket and the cache in which a node belongs.
pub record Found (t : RoutingTable) (n : NodeId) (b c : List NodeId) : Type 0 where
  pub at_bucket : get_elem? t.buckets (index_of t.center_node_id n) ≡ some b
  pub at_cache : get_elem? t.replacement_caches (index_of t.center_node_id n) ≡ some c
  pub in_range : index_of t.center_node_id n < num_routing_table_buckets
  pub distance :
      (s : RoutingTable)
      → compute_log_distance t.center_node_id n s ≡ (ok (index_of t.center_node_id n + 1), s)
  pub access :
      get_index_bucket_and_replacement_cache n t ≡ (ok (index_of t.center_node_id n, b, c), t)

access_lem :
    (t : RoutingTable) (n : NodeId) (d : ℕ) {i : ℕ} (b c : List NodeId)
    → compute_log_distance t.center_node_id n t ≡ (ok d, t)
    → d - 1 ≡ i
    → get_elem? t.buckets i ≡ some b
    → get_elem? t.replacement_caches i ≡ some c
    → get_index_bucket_and_replacement_cache n t ≡ (ok (i, b, c), t)
unfolding get_index_bucket_and_replacement_cache
access_lem t n d b c run gap hb hc = ground arith

distance_lem :
    (t : RoutingTable) (n : NodeId)
    → IsTable t
    → IsNodeId n
    → n ≢ t.center_node_id
    → (s : RoutingTable)
    → compute_log_distance t.center_node_id n s ≡ (ok (index_of t.center_node_id n + 1), s)
distance_lem t n v hn ne s =
    let (d, run, place, _, _, _) =
      log_distance_lem t.center_node_id n v.center_valid hn (λ e. ne (sym e)) s in
    rw (← place) run

pub found :
    (t : RoutingTable) (n : NodeId)
    → IsTable t
    → IsNodeId n
    → n ≢ t.center_node_id
    → (b : List NodeId) × (c : List NodeId) × Found t n b c
found t n v hn ne =
    let (d, run, place, le, _, _) =
      log_distance_lem t.center_node_id n v.center_valid hn (λ e. ne (sym e)) t in
    let i = index_of t.center_node_id n in
    let gap : d - 1 ≡ i = omega arith in
    let (b, hb) = get_elem?-some t.buckets i (omega (arith, v.buckets_count)) in
    let (c, hc) = get_elem?-some t.replacement_caches i (omega (arith, v.caches_count)) in
    (
      b,
      c,
      record {
        at_bucket = hb;
        at_cache = hc;
        in_range = omega arith;
        distance = distance_lem t n v hn ne;
        access = access_lem t n d b c run gap hb hc;
      },
    )

-- A table with the same center finds the node in the same place.
pub access_again :
    (t : RoutingTable) (n : NodeId) (t' : RoutingTable) (b c : List NodeId) {b' c' : List NodeId}
    → IsTable t
    → Found t n b' c'
    → t'.center_node_id ≡ t.center_node_id
    → get_elem? t'.buckets (index_of t.center_node_id n) ≡ some b
    → get_elem? t'.replacement_caches (index_of t.center_node_id n) ≡ some c
    → get_index_bucket_and_replacement_cache n t' ≡ (ok (index_of t.center_node_id n, b, c), t')
access_again t n t' b c v f e hb hc =
    let i = index_of t.center_node_id n in
    access_lem t' n (i + 1) b c (simp e (f.distance t')) (omega arith) hb hc

read_back :
    (xs : List (List NodeId)) (i j : ℕ) (x y : List NodeId)
    → i < length xs
    → i ≡ j
    → get_elem? (set xs i x) j ≡ some y
    → x ≡ y
read_back xs i j x y lt e h = ground (arith, get_elem?-set_self xs i x lt)

-- A write to one bucket and its cache, and to the update order.
abbrev pub written : ℕ → List NodeId → List NodeId → List ℕ → RoutingTable → RoutingTable
written i b c order t = record (store i b c t) { bucket_update_order = order }

-- It keeps the invariant where the slot and the order do.
pub written-IsTable :
    (t : RoutingTable) (i : ℕ) (b c : List NodeId) (order : List ℕ)
    → IsTable t
    → i < num_routing_table_buckets
    → IsSlot t.center_node_id t.bucket_size i b c
    → Distinct ℕ_discrete order
    → elem ℕ_discrete i order ≡ not (is_nil b)
    → ((j : ℕ) → j ≢ i → elem ℕ_discrete j order ≡ elem ℕ_discrete j t.bucket_update_order)
    → IsTable (written i b c order t)
written-IsTable t i b c order v lt slot distinct here others = record {
  center_valid = v.center_valid;
  positive = v.positive;
  buckets_count = length-set t.buckets i b ∙ v.buckets_count;
  caches_count = length-set t.replacement_caches i c ∙ v.caches_count;
  slots = λ j b' c' hb hc. elim (ℕ_discrete i j) [
    | yes e ↦
        let eb : b ≡ b' = read_back t.buckets i j b b' (omega (arith, v.buckets_count)) e hb in
        let ec : c ≡ c' =
          read_back t.replacement_caches i j c c' (omega (arith, v.caches_count)) e hc in
        rw (← e, ← eb, ← ec) slot
    | no ne ↦
        v.slots j b' c' (sym (get_elem?-set_ne t.buckets i j b ne) ∙ hb)
          (sym (get_elem?-set_ne t.replacement_caches i j c ne) ∙ hc)
  ];
  order_distinct = distinct;
  order_exact = λ j b' hb. elim (ℕ_discrete i j) [
    | yes e ↦
        let eb : b ≡ b' = read_back t.buckets i j b b' (omega (arith, v.buckets_count)) e hb in
        rw (← e, ← eb) here
    | no ne ↦
        others j (λ e. ne (sym e))
        ∙ v.order_exact j b' (sym (get_elem?-set_ne t.buckets i j b ne) ∙ hb)
  ];
  order_range = λ j h. elim (ℕ_discrete i j) [
    | yes e ↦ rw (← e) lt
    | no ne ↦ v.order_range j (sym (others j (λ e. ne (sym e))) ∙ h)
  ];
}

-- A new table keeps the invariant.
pub init-IsTable :
    (center : NodeId) (size : ℕ) → IsNodeId center → 0 < size → IsTable (init center size)
unfolding init
init-IsTable center size hc hs = record {
  center_valid = hc;
  positive = hs;
  buckets_count = length-replicate {A = List NodeId} num_routing_table_buckets [];
  caches_count = length-replicate {A = List NodeId} num_routing_table_buckets [];
  slots = λ i b c hb hc'.
      let eb : b ≡ [] = get_elem?-replicate num_routing_table_buckets i [] b hb in
      let ec : c ≡ [] = get_elem?-replicate num_routing_table_buckets i [] c hc' in
      rw (eb, ec) (empty-IsSlot center size i);
  order_distinct = tt;
  order_exact = λ i b hb.
      let eb : b ≡ [] = get_elem?-replicate num_routing_table_buckets i [] b hb in rw eb refl;
  order_range = λ i h. cc;
}

module _ (t : RoutingTable) (n : NodeId) (b c : List NodeId) where
  open t use {center_node_id, bucket_update_order}

  abbrev pub place : ℕ
  place = index_of center_node_id n

  -- The table after a node has moved to the front of its bucket.
  unfoldable pub moved : RoutingTable
  moved =
      written place (n ∷ remove ℕ_discrete n b) (remove ℕ_discrete n c)
        (place ∷ remove ℕ_discrete place bucket_update_order) t

module _ (t : RoutingTable) (n : NodeId) (b c : List NodeId) (v : IsTable t)
    (f : Found t n b c) where
  open t use {center_node_id, bucket_size, bucket_update_order}

  abbrev i : ℕ
  i = index_of center_node_id n

  moved_order :
      (j : ℕ)
      → j ≢ i
      → elem ℕ_discrete j (i ∷ remove ℕ_discrete i bucket_update_order)
        ≡ elem ℕ_discrete j bucket_update_order
  moved_order j ne = ground (arith, elem-remove ℕ_discrete i j bucket_update_order v.order_distinct)

  -- `update_bucket_unchecked` where the node is in the bucket or has room there.
  pub moved-IsTable :
      (elem ℕ_discrete n b ≡ true) ⊎ (length b < bucket_size) → IsTable (moved t n b c)
  unfolding moved
  moved-IsTable h =
      written-IsTable t i (n ∷ remove ℕ_discrete n b) (remove ℕ_discrete n c)
        (i ∷ remove ℕ_discrete i bucket_update_order) v f.in_range
        (move_front-IsSlot center_node_id bucket_size i n b c (v.slots i b c f.at_bucket f.at_cache)
          refl h)
        (
          ground (arith, elem-remove ℕ_discrete i i bucket_update_order v.order_distinct),
          remove-Distinct ℕ_discrete i bucket_update_order v.order_distinct,
        )
        (ground arith) moved_order

  pub update_bucket_unchecked-moved :
      (elem ℕ_discrete n b ≡ true) ⊎ (length b < bucket_size)
      → update_bucket_unchecked n t ≡ (ok tt, moved t n b c)
  unfolding moved update_bucket_unchecked
  update_bucket_unchecked-moved h =
      rw
        (
          f.access,
          move_front center_node_id bucket_size i n b c (v.slots i b c f.at_bucket f.at_cache)
              (room center_node_id bucket_size i n b c (v.slots i b c f.at_bucket f.at_cache) h),
        )
        refl
