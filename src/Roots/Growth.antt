-- ===== src/Roots/Growth.antt =====
-- The invariant of the tracker after a node has been added.
use trinity.Prelude.{
  ℕ, suc, ◌≤◌, ◌<◌, ◌≡◌, ◌≢◌, refl, sym, ap, subst, ◌∙◌, none, some, [], ◌∷◌, ◌++◌, arith, ite,
  if_pos, if_neg, true, false, elem, Distinct, Option-cases, some_inj, some-ne-none, ◌⊎◌, inl, inr,
  elem-append_end, append_end-Distinct, Bool-cases,
}
use trinity.Prelude.Int.{ℤ, pos, ◌+ℤ◌}
use trinity.Prelude.Dict.{get, put, get-put, get-put_self, get-put_ne}
use trinity.Roots.Tree.{Tree, children_of}
use trinity.Roots.Object.{Ref, TreeRoot, Heap}
use trinity.Roots.Tracker.{RootTracker}
use trinity.Roots.Walk.{RootOf, RootOf-put, RootOf-put_below, RootOf-put_new}
use trinity.Roots.Invariant.{
  IsTracker, IsNode, Placed, Placed-transfer, SharesOnce, top, shares, extends,
}

module _ {K : Type 0} (dec : Discrete K) where
  -- A new node may join where its parent is not itself or in a tree below it.
  pub record Attachable (t : RootTracker K) (n p : K) : Type 0 where
    pub fresh : get dec t.tree.parents n ≡ none
    pub not_self : p ≢ n
    pub not_below :
        (r : K) (d : ℕ) → RootOf dec t.tree.parents p r d → get dec t.tree.parents r ≢ some n

  -- The tree after `Tree.add`.
  abbrev pub grown_tree : Tree K → K → K → Tree K
  grown_tree tree n p = record {
    parents = put dec tree.parents n p;
    children = put dec tree.children p (children_of dec tree p ++ n ∷ []);
  }

  -- The tracker after `add`, with the root object and the depth of the new node.
  abbrev pub grown : RootTracker K → K → K → Ref → ℕ → Heap K → RootTracker K
  grown t n p a k h = record {
    tree = grown_tree t.tree n p;
    roots = put dec t.roots n a;
    original_depth_to_root = put dec t.original_depth_to_root n k;
    cache = [];
    heap = h;
  }

  -- What the heap of the grown tracker must hold.
  pub record IsGrown (t : RootTracker K) (n p : K) (a : Ref) (k : ℕ) (h : Heap K) : Type 0 where
    pub value : TreeRoot K
    pub value_at : h.cell a ≡ some value
    pub in_heap : a < h.next
    pub grows : t.heap.next ≤ h.next
    -- Only the objects of the children of the new node may change.
    pub kept :
        (b : Ref) (o : TreeRoot K)
        → b < t.heap.next
        → t.heap.cell b ≡ some o
        → (o' : TreeRoot K) × (h.cell b ≡ some o')
          × ((o' ≡ o) ⊎ (get dec t.tree.parents o.root_id ≡ some n))
    -- These extend the object of the new node.
    pub linked :
        (m : K) (x : IsNode dec t m n)
        → get dec t.tree.parents m ≡ some n
        → (o' : TreeRoot K) × (h.cell x.object ≡ some o')
          × (o'.root_id ≡ m)
          × (o'.extends_root ≡ some a)
          × (pos x.depth +ℤ o'.depth_extension ≡ pos (suc k))
    pub new_placed : Placed dec (grown t n p a k h) n p a k value
    pub new_apart : (m : K) → get dec t.tree.parents m ≡ some n → get dec t.roots m ≢ some a
    pub first_child : (m : K) → get dec t.tree.parents m ≡ some p → get dec t.roots p ≢ some a

  pub children_of-grown :
      (tree : Tree K) (n p x : K)
      → children_of dec (grown_tree tree n p) x
        ≡ ite (dec x p) (children_of dec tree p ++ n ∷ []) (children_of dec tree x)
  unfolding children_of
  children_of-grown tree n p x =
      ground (arith, get-put dec tree.children p x (children_of dec tree p ++ n ∷ []))

  module _ (t : RootTracker K) (n p : K) (a : Ref) (k : ℕ) (h : Heap K) (v : IsTracker dec t)
      (w : Attachable t n p) (g : IsGrown t n p a k h) where
    abbrev t' : RootTracker K
    t' = grown t n p a k h

    node_ne : (x q : K) → get dec t.tree.parents x ≡ some q → x ≢ n
    node_ne x q hq e = some-ne-none (ap (get dec t.tree.parents) (sym e) ∙ hq) w.fresh

    -- A node of old whose parent is not the new node.
    old_node : (x q : K) → get dec t.tree.parents x ≡ some q → q ≢ n → IsNode dec t' x q
    old_node x q hq ne =
        let y = v.node x q hq in
        let (o', at, how) = g.kept y.object y.value y.allocated y.cell_at in
        record {
          object = y.object;
          depth = y.depth;
          value = o';
          root_at = get-put_ne dec t.roots n x a (node_ne x q hq) ∙ y.root_at;
          depth_at = get-put_ne dec t.original_depth_to_root n x k (node_ne x q hq) ∙ y.depth_at;
          cell_at = at;
          allocated = omega (arith, y.allocated, g.grows);
          placed =
              Placed-transfer dec t t' x q y.object y.depth o'
                (get-put_ne dec t.tree.parents n q p ne) (get-put_ne dec t.roots n q a ne)
                (get-put_ne dec t.original_depth_to_root n q k ne) (keep y o' how y.placed);
        }
      where
        -- A changed object belongs to a child of the new node.
        owner :
            (y : IsNode dec t x q) (o' : TreeRoot K)
            → (o' ≡ y.value) ⊎ (get dec t.tree.parents y.value.root_id ≡ some n)
            → y.value.root_id ≡ x
            → y.value ≡ o'
        owner y o' (inl e) own = sym e
        owner y o' (inr e) own =
            absurd (ne (some_inj hq (ap (get dec t.tree.parents) (sym own) ∙ e)))

        keep :
            (y : IsNode dec t x q) (o' : TreeRoot K)
            → (o' ≡ y.value) ⊎ (get dec t.tree.parents y.value.root_id ≡ some n)
            → Placed dec t x q y.object y.depth y.value
            → Placed dec t x q y.object y.depth o'
        keep y o' how (top h1 h2 h3 h4) =
            subst (Placed dec t x q y.object y.depth) (owner y o' how h2) (top h1 h2 h3 h4)
        keep y o' how (shares q' j h1 h2 h3 h4) = shares q' j h1 h2 h3 h4
        keep y o' how (extends q' j b h1 h2 h3 h4 h5 h6) =
            subst (Placed dec t x q y.object y.depth) (owner y o' how h4)
              (extends q' j b h1 h2 h3 h4 h5 h6)

    linked_node : (x : K) → get dec t.tree.parents x ≡ some n → IsNode dec t' x n
    linked_node x hn =
        let y = v.node x n hn in
        let (o', at, own, ext, deep) = g.linked x y hn in
        record {
          object = y.object;
          depth = y.depth;
          value = o';
          root_at = get-put_ne dec t.roots n x a (node_ne x n hn) ∙ y.root_at;
          depth_at = get-put_ne dec t.original_depth_to_root n x k (node_ne x n hn) ∙ y.depth_at;
          cell_at = at;
          allocated = omega (arith, y.allocated, g.grows);
          placed =
              extends p k a (get-put_self dec t.tree.parents n n p refl)
                (get-put_self dec t.roots n n a refl)
                (get-put_self dec t.original_depth_to_root n n k refl) own ext deep;
        }

    new_node : IsNode dec t' n p
    new_node = record {
      object = a;
      depth = k;
      value = g.value;
      root_at = get-put_self dec t.roots n n a refl;
      depth_at = get-put_self dec t.original_depth_to_root n n k refl;
      cell_at = g.value_at;
      allocated = g.in_heap;
      placed = g.new_placed;
    }

    grown_node : (x q : K) → get dec t'.tree.parents x ≡ some q → IsNode dec t' x q
    grown_node x q hq = elim (dec x n) [
      | yes e ↦
          subst (λ z. IsNode dec t' z q) (sym e)
            (subst (IsNode dec t' n) (some_inj (get-put_self dec t.tree.parents n x p e) hq)
              new_node)
      | no ne ↦
          let old : get dec t.tree.parents x ≡ some q =
            sym (get-put_ne dec t.tree.parents n x p ne) ∙ hq in
          elim (dec q n) [
            | yes e ↦ subst (IsNode dec t' x) (sym e) (linked_node x (old ∙ ap some e))
            | no apart ↦ old_node x q old apart
          ]
    ]

    grown-SharesOnce : SharesOnce dec t'
    grown-SharesOnce x y q b hx hy hq ax ay = elim (dec x n) [
      | yes ex ↦ elim (dec y n) [
        | yes ey ↦ ex ∙ sym ey
        | no ny ↦ absurd (only_new x y q b ex ny hx hy hq ax)
      ]
      | no nx ↦ elim (dec y n) [
        | yes ey ↦ absurd (only_new y x q b ey nx hy hx hq ay)
        | no ny ↦ both_old nx ny
      ]
    ]
      where
        -- The new node shares only as the first child.
        only_new :
            (x y q : K) (b : Ref)
            → x ≡ n
            → y ≢ n
            → get dec t'.tree.parents x ≡ some q
            → get dec t'.tree.parents y ≡ some q
            → get dec t'.roots q ≡ some b
            → get dec t'.roots x ≡ some b
            → ⊥
        only_new x y q b ex ny hx hy hq ax =
            let eq : p ≡ q = some_inj (get-put_self dec t.tree.parents n x p ex) hx in
            let ea : a ≡ b = some_inj (get-put_self dec t.roots n x a ex) ax in
            g.first_child y (sym (get-put_ne dec t.tree.parents n y p ny) ∙ hy ∙ ap some (sym eq)) (
              sym (get-put_ne dec t.roots n p a w.not_self)
              ∙ ap (get dec t'.roots) eq
              ∙ hq
              ∙ ap some (sym ea))

        both_old : x ≢ n → y ≢ n → x ≡ y
        both_old nx ny =
            let ox = sym (get-put_ne dec t.tree.parents n x p nx) ∙ hx in
            let oy = sym (get-put_ne dec t.tree.parents n y p ny) ∙ hy in
            let rx = sym (get-put_ne dec t.roots n x a nx) ∙ ax in
            let ry = sym (get-put_ne dec t.roots n y a ny) ∙ ay in
            elim (dec q n) [
              | yes e ↦
                  let ea : a ≡ b = some_inj (get-put_self dec t.roots n q a e) hq in
                  absurd (g.new_apart x (ox ∙ ap some e) (rx ∙ ap some (sym ea)))
              | no ne ↦
                  v.shares_once x y q b ox oy (sym (get-put_ne dec t.roots n q a ne) ∙ hq) rx ry
            ]

    grown_walk :
        (x q : K)
        → get dec t'.tree.parents x ≡ some q
        → (r : K) × (d : ℕ) × RootOf dec t'.tree.parents x r d
    grown_walk x q hq = elim (dec x n) [
      | yes e ↦ subst (λ z. (r : K) × (d : ℕ) × RootOf dec t'.tree.parents z r d) (sym e) new_walk
      | no ne ↦ from_old (v.acyclic x q (sym (get-put_ne dec t.tree.parents n x p ne) ∙ hq))
    ]
      where
        parent_walk :
            (get dec t.tree.parents p ≡ none)
            ⊎ ((r : K) × (d : ℕ) × RootOf dec t.tree.parents p r d)
        parent_walk = elim (Option-cases (get dec t.tree.parents p)) [
          | inl out ↦ inl out
          | inr (z, hz) ↦ inr (v.acyclic p z hz)
        ]

        new_walk : (r : K) × (d : ℕ) × RootOf dec t'.tree.parents n r d
        new_walk = RootOf-put_new dec t.tree.parents n p w.fresh w.not_self w.not_below parent_walk

        from_old :
            (r : K) × (d : ℕ) × RootOf dec t.tree.parents x r d
            → (r : K) × (d : ℕ) × RootOf dec t'.tree.parents x r d
        from_old (r, d, u) = elim (below? r) [
          | inl here ↦
              let (s, e, up) = new_walk in
              let (e', u') = RootOf-put_below dec t.tree.parents n p w.fresh d e x r s here up u in
              (s, e', u')
          | inr there ↦ (r, d, RootOf-put dec t.tree.parents n p w.fresh d x r there u)
        ]
          where
            below? :
                (r : K) → (get dec t.tree.parents r ≡ some n) ⊎ (get dec t.tree.parents r ≢ some n)
            below? r = elim (Option-cases (get dec t.tree.parents r)) [
              | inl out ↦ inr (λ h. some-ne-none h out)
              | inr (z, hz) ↦ elim (dec z n) [
                | yes e ↦ inl (hz ∙ ap some e)
                | no ne ↦ inr (λ h. ne (some_inj hz h))
              ]
            ]

    elem-grown :
        (c x : K)
        → elem dec c (children_of dec t'.tree x)
          ≡ ite
              (dec x p)
              (ite (dec c n) true (elem dec c (children_of dec t.tree p)))
              (elem dec c (children_of dec t.tree x))
    elem-grown c x =
        rw (children_of-grown t.tree n p x)
          (ground (arith, elem-append_end dec c n (children_of dec t.tree p)))

    not_child : elem dec n (children_of dec t.tree p) ≡ false
    not_child = elim (Bool-cases (elem dec n (children_of dec t.tree p))) [
      | inl h ↦ absurd (some-ne-none (v.children_exact n p h) w.fresh)
      | inr h ↦ h
    ]

    grown_exact :
        (c x : K)
        → elem dec c (children_of dec t'.tree x) ≡ true
        → get dec t'.tree.parents c ≡ some x
    grown_exact c x h = ground (
      arith,
      elem-grown c x,
      get-put dec t.tree.parents n c p,
      v.children_exact c p,
      v.children_exact c x,
      w.fresh,
    )

    grown_all :
        (c x : K)
        → get dec t'.tree.parents c ≡ some x
        → elem dec c (children_of dec t'.tree x) ≡ true
    grown_all c x h = ground (
      arith,
      elem-grown c x,
      get-put dec t.tree.parents n c p,
      v.children_all c p,
      v.children_all c x,
    )

    grown-Distinct : (x : K) → Distinct dec (children_of dec t'.tree x)
    grown-Distinct x = elim (dec x p) [
      | yes e ↦
          rw (children_of-grown t.tree n p x, if_pos (dec x p) e _ _)
            (append_end-Distinct dec n (children_of dec t.tree p) (v.children_distinct p) not_child)
      | no ne ↦ rw (children_of-grown t.tree n p x, if_neg (dec x p) ne _ _) (v.children_distinct x)
    ]

    no_cache :
        (x r : K) (z : ℤ)
        → get {V = K × ℤ} dec [] x ≡ some (r, z)
        → (d : ℕ) × (z ≡ pos d) × RootOf dec t'.tree.parents x r d
    unfolding get
    no_cache x r z h = absurd (some-ne-none h refl)

    -- `add` of an attachable node keeps the invariant.
    pub grown-IsTracker : IsTracker dec t'
    grown-IsTracker = record {
      node = grown_node;
      rooted = λ x b h. elim (dec x n) [
        | yes e ↦ (p, get-put_self dec t.tree.parents n x p e)
        | no ne ↦
            let (q, hq) = v.rooted x b (sym (get-put_ne dec t.roots n x a ne) ∙ h) in
            (q, get-put_ne dec t.tree.parents n x p ne ∙ hq)
      ];
      shares_once = grown-SharesOnce;
      acyclic = grown_walk;
      children_exact = grown_exact;
      children_all = grown_all;
      children_distinct = grown-Distinct;
      cached = no_cache;
    }
