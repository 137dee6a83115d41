-- ===== src/Kademlia/Update.antt =====
-- `update` of p2p/kademlia.py: both branches, and the invariant.
use trinity.Prelude.{
  ℕ, ◌≤◌, ◌<◌, ◌≡◌, ◌≢◌, refl, ◌⊎◌, inl, inr, true, false, Bool-cases, none, some, List, [], ◌∷◌,
  ◌++◌, arith, length, elem, remove, ℕ_discrete, ◌==◌, ==_iff, dec_lt,
}
use trinity.Prelude.Exec.{ok, err, value_error}
use trinity.Kademlia.{NodeId, RoutingTable, store, last?, update}
use trinity.Kademlia.Distance.{IsNodeId, index_of}
use trinity.Kademlia.Slots.{wait-IsSlot}
use trinity.Kademlia.Invariant.{
  IsTable, Found, found, written-IsTable, moved, moved-IsTable, update_bucket_unchecked-moved,
}

last?-some : (xs : List NodeId) → 0 < length xs → (x : NodeId) × (last? xs ≡ some x)
last?-some [] h = elim h [ ]
last?-some (x ∷ []) h = (x, refl)
last?-some (x ∷ y ∷ xs) h = last?-some (y ∷ xs) (omega arith)

elem-last? : (xs : List NodeId) (x : NodeId) → last? xs ≡ some x → elem ℕ_discrete x xs ≡ true
elem-last? [] x h = cc
elem-last? (y ∷ []) x h = ground arith
elem-last? (y ∷ z ∷ xs) x h = ground (arith, elem-last? (z ∷ xs) x h)

ne_test : (n m : ℕ) → n ≢ m → (n == m) ≡ false
ne_test n m ne = ground arith

module _ (t : RoutingTable) (n : NodeId) (b c : List NodeId) where
  -- The table after a node has joined the replacement cache of its full bucket.
  unfoldable pub waiting : RoutingTable
  waiting = store (index_of t.center_node_id n) b (n ∷ remove ℕ_discrete n c) t

  abbrev pub HasRoom : Type 0
  HasRoom = (elem ℕ_discrete n b ≡ true) ⊎ (length b < t.bucket_size)

  -- The two outcomes of `update`.
  abbrev pub Updated : Type 0
  Updated =
      (HasRoom × (update n t ≡ (ok none, moved t n b c)))
      ⊎ ((oldest : NodeId) × (last? b ≡ some oldest)
          × (elem ℕ_discrete n b ≡ false)
          × (t.bucket_size ≤ length b)
          × (update n t ≡ (ok (some oldest), waiting)))

module _ (t : RoutingTable) (n : NodeId) (b c : List NodeId) (v : IsTable t) (f : Found t n b c)
    (ne : n ≢ t.center_node_id) where
  waiting-IsTable :
      elem ℕ_discrete n b ≡ false → t.bucket_size ≤ length b → IsTable (waiting t n b c)
  unfolding waiting
  waiting-IsTable out full =
      let i = index_of t.center_node_id n in
      written-IsTable t i b (n ∷ remove ℕ_discrete n c) t.bucket_update_order v f.in_range
        (wait-IsSlot t.center_node_id t.bucket_size i n b c (v.slots i b c f.at_bucket f.at_cache)
          refl out full)
        v.order_distinct (v.order_exact i b f.at_bucket) (λ j _. refl)

  update_room : HasRoom t n b c → update n t ≡ (ok none, moved t n b c)
  unfolding update
  update_room (inl h) =
      rw
        (
          ne_test n t.center_node_id ne,
          f.access,
          h,
          update_bucket_unchecked-moved t n b c v f (inl h),
        )
        refl
  update_room (inr h) = ground (
    arith,
    ne_test n t.center_node_id ne,
    f.access,
    update_bucket_unchecked-moved t n b c v f (inr h),
  )

  update_full :
      (oldest : NodeId)
      → last? b ≡ some oldest
      → elem ℕ_discrete n b ≡ false
      → t.bucket_size ≤ length b
      → update n t ≡ (ok (some oldest), waiting t n b c)
  unfolding update waiting
  update_full oldest last out full = ground (arith, ne_test n t.center_node_id ne, f.access)

  pub update_lem : Updated t n b c
  update_lem = elim (Bool-cases (elem ℕ_discrete n b)) [
    | inl h ↦ inl (inl h, update_room (inl h))
    | inr h ↦ elim (dec_lt (length b) t.bucket_size) [
      | yes lt ↦ inl (inr lt, update_room (inr lt))
      | no ge ↦
          let (oldest, last) = last?-some b (omega (arith, v.positive)) in
          inr (oldest, last, h, omega arith, update_full oldest last h (omega arith))
    ]
  ]

  updated-IsTable : Updated t n b c → IsTable (update n t).1
  updated-IsTable (inl (h, e)) = rw e (moved-IsTable t n b c v f h)
  updated-IsTable (inr (oldest, last, out, full, e)) = rw e (waiting-IsTable out full)

-- `update` of a node id other than the center does not raise. Where the node is in its bucket, or
-- the bucket has room, it moves to the front of the bucket and leaves the replacement cache, its
-- bucket becomes the last updated, and `None` is returned. Otherwise it moves to the front of the
-- replacement cache, the rest of the table stays, and the last node of the bucket is returned.
pub update_cases :
    (t : RoutingTable) (n : NodeId)
    → IsTable t
    → IsNodeId n
    → n ≢ t.center_node_id
    → (b : List NodeId) × (c : List NodeId) × Found t n b c × Updated t n b c
update_cases t n v hn ne = let (b, c, f) = found t n v hn ne in (b, c, f, update_lem t n b c v f ne)

-- `update` raises for the center and changes nothing.
pub update_center :
    (t : RoutingTable) (n : NodeId) → n ≡ t.center_node_id → update n t ≡ (err value_error, t)
unfolding update
update_center t n e = ground (arith, ==_iff n t.center_node_id)

-- `update` keeps the invariant of the table, whatever node id it is given.
pub update-IsTable :
    (t : RoutingTable) (n : NodeId) → IsTable t → IsNodeId n → IsTable (update n t).1
update-IsTable t n v hn = elim (ℕ_discrete n t.center_node_id) [
  | yes e ↦ rw (update_center t n e) v
  | no ne ↦
      let (b, c, f) = found t n v hn ne in
      updated-IsTable t n b c v f ne (update_lem t n b c v f ne)
]

elem-moved : (n : NodeId) (b c : List NodeId) → elem ℕ_discrete n ((n ∷ b) ++ c) ≡ true
elem-moved n b c = ground arith
