-- ===== src/Kademlia/Queries.antt =====
-- The reads of the routing table: `get_nodes_at_log_distance`, `is_empty`,
-- `get_least_recently_updated_log_distance` and `iter_nodes_around` of p2p/kademlia.py.
use mathlib.Core.List.{flatten, Perm}
use mathlib.Core.List.Perm
use trinity.Prelude.{
  ℕ, zero, suc, ◌+◌, ◌≤◌, ◌<◌, ◌≡◌, refl, sym, ap, ◌∙◌, ◌⊎◌, inl, inr, true, false, Bool,
  Bool-cases, some, List, [], ◌∷◌, arith, elem, ℕ_discrete, not, leb, dec_lt, get_elem?,
  get_elem?-some, get_elem?-lt, length, elem_rest, some_inj, subst, ◌↔◌,
}
use trinity.Prelude.Exec.{ok, err, value_error}
use trinity.Prelude.Int.{ℤ, pos, negsuc, pos_part, ◌-ℤ◌, leb_ℤ}
use trinity.Kademlia.Distance.{index_of}
use trinity.Kademlia.{
  NodeId, RoutingTable, is_nil, all_nil, is_empty, last?, insert_by, sorted_by, iter_nodes_around,
  compute_distance, get_nodes_at_log_distance, get_least_recently_updated_log_distance,
}
use trinity.Kademlia.Slots.{Placed}
use trinity.Kademlia.Invariant.{IsTable}

-- A node is in some bucket.
abbrev pub InBuckets : RoutingTable → NodeId → Type 0
InBuckets t n =
    (i : ℕ) × (b : List NodeId) × (get_elem? t.buckets i ≡ some b) × (elem ℕ_discrete n b ≡ true)

elem-Placed :
    (center : NodeId) (i : ℕ) (n : NodeId) (b : List NodeId)
    → Placed center i b
    → elem ℕ_discrete n b ≡ true
    → index_of center n ≡ i
elem-Placed center i n [] p h = absurd (ground arith)
elem-Placed center i n (x ∷ xs) p h = elim (ℕ_discrete n x) [
  | yes e ↦ ap (index_of center) e ∙ p.0
  | no ne ↦ elem-Placed center i n xs p.1 (elem_rest ℕ_discrete n x xs ne h)
]

-- A node of a bucket has the index of the bucket.
bucket_index :
    (t : RoutingTable) (i : ℕ) (b : List NodeId) (n : NodeId)
    → IsTable t
    → get_elem? t.buckets i ≡ some b
    → elem ℕ_discrete n b ≡ true
    → index_of t.center_node_id n ≡ i
bucket_index t i b n v hb h =
    let in_range = get_elem?-lt t.buckets i b hb in
    let (c, hc) =
      get_elem?-some t.replacement_caches i (omega (arith, v.buckets_count, v.caches_count)) in
    elem-Placed t.center_node_id i n b ((v.slots i b c hb hc).bucket_placed) h

one_less : (k : ℕ) → pos (suc k) -ℤ pos 1 ≡ pos k
unfolding ◌-ℤ◌
one_less k = ground arith

bucket_found :
    (t : RoutingTable) (k : ℕ) (b : List NodeId)
    → k < length t.buckets
    → get_elem? t.buckets k ≡ some b
    → get_nodes_at_log_distance (pos (suc k)) t ≡ (ok b, t)
unfolding get_nodes_at_log_distance
bucket_found t k b h e =
    let positive : leb_ℤ (pos (suc k)) (pos 0) ≡ false = ground arith in
    let inside : leb_ℤ (pos (suc k)) (pos (length t.buckets)) ≡ true = ground arith in
    simp (positive, inside, one_less k, e) refl

-- get_nodes_at_log_distance returns, for a distance from 1 to 256, exactly the nodes of the buckets
-- that are at that log distance from the center, and raises a ValueError for any other distance,
-- zero and negative ones included.
pub nodes_at_log_distance_lem :
    (t : RoutingTable) (d : ℤ)
    → IsTable t
    → ((k : ℕ) × (nodes : List NodeId) × (d ≡ pos (suc k))
        × (k < 256)
        × (get_nodes_at_log_distance d t ≡ (ok nodes, t))
        × ((n : NodeId)
            → (elem ℕ_discrete n nodes ≡ true)
              ↔ (InBuckets t n × (index_of t.center_node_id n ≡ k))))
      ⊎ ((get_nodes_at_log_distance d t ≡ (err value_error, t))
          × ((pos_part d ≡ 0) ⊎ (256 < pos_part d)))
unfolding get_nodes_at_log_distance
nodes_at_log_distance_lem t (negsuc d) v =
    let below : leb_ℤ (negsuc d) (pos 0) ≡ true = ground arith in inr (simp below refl, inl refl)
nodes_at_log_distance_lem t (pos zero) v = inr (refl, inl refl)
nodes_at_log_distance_lem t (pos (suc k)) v = elim (dec_lt 256 (suc k)) [
  | yes far ↦ inr (ground (arith, v.buckets_count), inr far)
  | no near ↦
      let (b, hb) = get_elem?-some t.buckets k (omega (arith, v.buckets_count)) in
      inl (
        k,
        b,
        refl,
        omega arith,
        bucket_found t k b (omega (arith, v.buckets_count)) hb,
        λ n. (
          λ h. ((k, b, hb, h), bucket_index t k b n v hb h),
          λ ((i, b', hb', h), e).
              let same : i ≡ k = sym (bucket_index t i b' n v hb' h) ∙ e in
              subst (λ c. elem ℕ_discrete n c ≡ true)
                (some_inj refl (sym hb' ∙ (ap (get_elem? t.buckets) same ∙ hb))) h,
        ),
      )
]

-- Each element is at most the next by its key.
abbrev pub SortedBy : (NodeId → ℕ) → List NodeId → Type 0
SortedBy key [] = Unit
SortedBy key (x ∷ []) = Unit
SortedBy key (x ∷ y ∷ xs) = (key x ≤ key y) × SortedBy key (y ∷ xs)

module _ (key : NodeId → ℕ) where
  insert_by-SortedBy :
      (x : NodeId) (xs : List NodeId) → SortedBy key xs → SortedBy key (insert_by key x xs)
  unfolding insert_by
  insert_by-SortedBy x [] h = tt
  insert_by-SortedBy x (y ∷ []) h = ground arith
  insert_by-SortedBy x (y ∷ z ∷ xs) h = ground (arith, insert_by-SortedBy x (z ∷ xs) h.1)

  sorted_by-SortedBy : (xs : List NodeId) → SortedBy key (sorted_by key xs)
  unfolding sorted_by
  sorted_by-SortedBy [] = tt
  sorted_by-SortedBy (x ∷ xs) = insert_by-SortedBy x (sorted_by key xs) (sorted_by-SortedBy xs)

  insert_by-perm : (x : NodeId) (xs : List NodeId) → Perm (insert_by key x xs) (x ∷ xs)
  unfolding insert_by
  insert_by-perm x [] = Perm.refl (x ∷ [])
  insert_by-perm x (y ∷ ys) = elim (Bool-cases (leb (key x) (key y))) [
    | inl h ↦ rw h (Perm.refl (x ∷ y ∷ ys))
    | inr h ↦ rw h (Perm.trans (Perm.cons y (insert_by-perm x ys)) (Perm.swap x y ys))
  ]

  sorted_by-perm : (xs : List NodeId) → Perm (sorted_by key xs) xs
  unfolding sorted_by
  sorted_by-perm [] = Perm.refl []
  sorted_by-perm (x ∷ xs) =
      Perm.trans (insert_by-perm x (sorted_by key xs)) (Perm.cons x (sorted_by-perm xs))

-- `iter_nodes_around` yields every node of the buckets as often as it is there, in the order of
-- the distance to the reference.
pub iter_nodes_around_lem :
    (reference : NodeId) (t : RoutingTable)
    → SortedBy (compute_distance reference) (iter_nodes_around reference t)
      × Perm (iter_nodes_around reference t) (flatten t.buckets)
unfolding iter_nodes_around
iter_nodes_around_lem reference t = (
  sorted_by-SortedBy (compute_distance reference) (flatten t.buckets),
  sorted_by-perm (compute_distance reference) (flatten t.buckets),
)

all_nil_of :
    (bs : List (List NodeId))
    → ((i : ℕ) (b : List NodeId) → get_elem? bs i ≡ some b → is_nil b ≡ true)
    → all_nil bs ≡ true
all_nil_of [] h = refl
all_nil_of (b ∷ bs) h = rw (h 0 b refl) (all_nil_of bs (λ i x e. h (suc i) x e))

not-all_nil :
    (bs : List (List NodeId)) (i : ℕ) (b : List NodeId)
    → get_elem? bs i ≡ some b
    → is_nil b ≡ false
    → all_nil bs ≡ false
not-all_nil [] i b e h = cc
not-all_nil (x ∷ bs) zero b e h = ground arith
not-all_nil (x ∷ bs) (suc i) b e h = ground (arith, not-all_nil bs i b e h)

elem-last? : (xs : List ℕ) (x : ℕ) → last? xs ≡ some x → elem ℕ_discrete x xs ≡ true
elem-last? [] x h = cc
elem-last? (y ∷ []) x h = ground arith
elem-last? (y ∷ z ∷ xs) x h = ground (arith, elem-last? (z ∷ xs) x h)

last?-cons : (x : ℕ) (xs : List ℕ) → (y : ℕ) × (last? (x ∷ xs) ≡ some y)
last?-cons x [] = (x, refl)
last?-cons x (z ∷ xs) = last?-cons z xs

not-true : (b : Bool) → false ≡ not b → b ≡ true
not-true b h = ground arith

-- What `get_least_recently_updated_log_distance` returns.
abbrev LeastRecent : RoutingTable → List ℕ → Type 0
LeastRecent t order =
    ((is_empty t ≡ true) × (order ≡ []))
    ⊎ ((i : ℕ) × (b : List NodeId) × (is_empty t ≡ false)
        × (last? order ≡ some i)
        × (get_elem? t.buckets i ≡ some b)
        × (is_nil b ≡ false))

least_recent :
    (t : RoutingTable) (order : List ℕ)
    → IsTable t
    → t.bucket_update_order ≡ order
    → LeastRecent t order
unfolding is_empty
least_recent t [] v e = inl (
  all_nil_of t.buckets
      (λ i b hb. not-true (is_nil b) (ap (elem ℕ_discrete i) (sym e) ∙ v.order_exact i b hb)),
  refl,
)
least_recent t (x ∷ xs) v e =
    let (i, last) = last?-cons x xs in
    let inside : elem ℕ_discrete i t.bucket_update_order ≡ true =
      ap (elem ℕ_discrete i) e ∙ elem-last? (x ∷ xs) i last in
    let (b, hb) =
      get_elem?-some t.buckets i (omega (arith, v.order_range i inside, v.buckets_count)) in
    let filled : is_nil b ≡ false = ground (arith, v.order_exact i b hb) in
    inr (i, b, not-all_nil t.buckets i b hb filled, last, hb, filled)

-- `get_least_recently_updated_log_distance` raises exactly on an empty table, and otherwise
-- returns the distance of the bucket that comes last in the update order, which is not empty.
pub least_recently_updated_lem :
    (t : RoutingTable)
    → IsTable t
    → ((is_empty t ≡ true) × (get_least_recently_updated_log_distance t ≡ (err value_error, t)))
      ⊎ ((i : ℕ) × (b : List NodeId) × (is_empty t ≡ false)
          × (get_least_recently_updated_log_distance t ≡ (ok (i + 1), t))
          × (last? t.bucket_update_order ≡ some i)
          × (get_elem? t.buckets i ≡ some b)
          × (is_nil b ≡ false))
unfolding get_least_recently_updated_log_distance
least_recently_updated_lem t v = elim (least_recent t t.bucket_update_order v refl) [
  | inl (empty, none_left) ↦ inl (empty, ground arith)
  | inr (i, b, filled, last, hb, hf) ↦ inr (i, b, filled, ground arith, last, hb, hf)
]
