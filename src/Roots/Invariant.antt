-- ===== src/Roots/Invariant.antt =====
-- The invariant of `RootTracker`: how the root object of each node is tied to that of its parent.
use trinity.Prelude.{ℕ, suc, ◌<◌, ◌≡◌, refl, ◌∙◌, none, some, true, elem, Distinct}
use trinity.Prelude.Int.{ℤ, pos, ◌+ℤ◌}
use trinity.Prelude.Dict.{Dict, get}
use trinity.Roots.Tree.{children_of}
use trinity.Roots.Object.{Ref, TreeRoot}
use trinity.Roots.Tracker.{RootTracker}
use trinity.Roots.Walk.{RootOf}

module _ {K : Type 0} (dec : Discrete K) where
  -- A node whose parent is no node has a root object of its own, at depth 0. Any other shares its
  -- parent's object, one step deeper, or has an object of its own that extends its parent's.
  pub data Placed (t : RootTracker K) (n p : K) (a : Ref) (k : ℕ) (o : TreeRoot K) : Type 0 where
    top :
        get dec t.tree.parents p ≡ none
        → o.root_id ≡ n
        → o.extends_root ≡ none
        → pos k +ℤ o.depth_offset ≡ pos 0
        → Placed t n p a k o
    shares :
        (q : K) (j : ℕ)
        → get dec t.tree.parents p ≡ some q
        → get dec t.roots p ≡ some a
        → get dec t.original_depth_to_root p ≡ some j
        → k ≡ suc j
        → Placed t n p a k o
    extends :
        (q : K) (j : ℕ) (b : Ref)
        → get dec t.tree.parents p ≡ some q
        → get dec t.roots p ≡ some b
        → get dec t.original_depth_to_root p ≡ some j
        → o.root_id ≡ n
        → o.extends_root ≡ some b
        → pos k +ℤ o.depth_extension ≡ pos (suc j)
        → Placed t n p a k o

  pub record IsNode (t : RootTracker K) (n p : K) : Type 0 where
    pub object : Ref
    pub depth : ℕ
    pub value : TreeRoot K
    pub root_at : get dec t.roots n ≡ some object
    pub depth_at : get dec t.original_depth_to_root n ≡ some depth
    pub cell_at : t.heap.cell object ≡ some value
    pub allocated : object < t.heap.next
    pub placed : Placed t n p object depth value

  -- Only one child shares the object of its parent.
  abbrev pub SharesOnce : RootTracker K → Type 0
  SharesOnce t =
      (m n p : K) (a : Ref)
      → get dec t.tree.parents m ≡ some p
      → get dec t.tree.parents n ≡ some p
      → get dec t.roots p ≡ some a
      → get dec t.roots m ≡ some a
      → get dec t.roots n ≡ some a
      → m ≡ n

  abbrev pub CachesRoots : RootTracker K → Type 0
  CachesRoots t =
      (n r : K) (z : ℤ)
      → get dec t.cache n ≡ some (r, z)
      → (d : ℕ) × (z ≡ pos d) × RootOf dec t.tree.parents n r d

  pub record IsTracker (t : RootTracker K) : Type 0 where
    pub node : (n p : K) → get dec t.tree.parents n ≡ some p → IsNode t n p
    pub rooted :
        (n : K) (a : Ref)
        → get dec t.roots n ≡ some a
        → (p : K) × (get dec t.tree.parents n ≡ some p)
    pub shares_once : SharesOnce t
    pub acyclic :
        (n p : K)
        → get dec t.tree.parents n ≡ some p
        → (r : K) × (d : ℕ) × RootOf dec t.tree.parents n r d
    pub children_exact :
        (c p : K) → elem dec c (children_of dec t.tree p) ≡ true → get dec t.tree.parents c ≡ some p
    pub children_all :
        (c p : K) → get dec t.tree.parents c ≡ some p → elem dec c (children_of dec t.tree p) ≡ true
    pub children_distinct : (p : K) → Distinct dec (children_of dec t.tree p)
    pub cached : CachesRoots t

  -- What a node's record in the invariant depends on.
  pub Placed-transfer :
      (t t' : RootTracker K) (n p : K) (a : Ref) (k : ℕ) (o : TreeRoot K)
      → get dec t'.tree.parents p ≡ get dec t.tree.parents p
      → get dec t'.roots p ≡ get dec t.roots p
      → get dec t'.original_depth_to_root p ≡ get dec t.original_depth_to_root p
      → Placed t n p a k o
      → Placed t' n p a k o
  Placed-transfer t t' n p a k o ep er ed (top h1 h2 h3 h4) = top (ep ∙ h1) h2 h3 h4
  Placed-transfer t t' n p a k o ep er ed (shares q j h1 h2 h3 h4) =
      shares q j (ep ∙ h1) (er ∙ h2) (ed ∙ h3) h4
  Placed-transfer t t' n p a k o ep er ed (extends q j b h1 h2 h3 h4 h5 h6) =
      extends q j b (ep ∙ h1) (er ∙ h2) (ed ∙ h3) h4 h5 h6

  -- The cache may hold whatever agrees with the walks.
  pub with_cache-IsTracker :
      (t : RootTracker K) (cache : Dict K (K × ℤ))
      → IsTracker t
      → CachesRoots (record t { cache = cache })
      → IsTracker (record t { cache = cache })
  with_cache-IsTracker t cache v c = record {
    node = λ n p h.
        let x = v.node n p h in
        record {
          object = x.object;
          depth = x.depth;
          value = x.value;
          root_at = x.root_at;
          depth_at = x.depth_at;
          cell_at = x.cell_at;
          allocated = x.allocated;
          placed =
              Placed-transfer t (record t { cache = cache }) n p x.object x.depth x.value refl refl
                refl x.placed;
        };
    rooted = v.rooted;
    shares_once = v.shares_once;
    acyclic = v.acyclic;
    children_exact = v.children_exact;
    children_all = v.children_all;
    children_distinct = v.children_distinct;
    cached = c;
  }
