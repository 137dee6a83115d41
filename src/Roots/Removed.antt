-- ===== src/Roots/Removed.antt =====
-- The forest and the tracker after `RootTracker.prune` of a root.
use trinity.Prelude.{
  ℕ, ◌<◌, ◌≡◌, ◌≢◌, refl, sym, ap, subst, ◌∙◌, none, some, List, [], ◌∷◌, arith, true, false, elem,
  without, Distinct, inl, inr, some_inj, some-ne-none, Option-cases, ite, elem-without,
  without-Distinct,
}
use trinity.Prelude.Exec.{ok}
use trinity.Prelude.Int.{pos, ◌+ℤ◌}
use trinity.Prelude.Dict.{
  get, put, del, has, Dict, get-del_found, get-del_ne, get-del_self, get-del-none, get-put_self,
  get-put_ne,
}
use trinity.Roots.Tree.{Tree, children_of, prune_node, set_children, has_parent, has_node}
use trinity.Roots.Object.{Ref, TreeRoot, Heap}
use trinity.Roots.Tracker.{RootTracker}
use trinity.Roots.Walk.{RootOf-del_root}
use trinity.Roots.Invariant.{CachesRoots, IsTracker, IsNode, Placed, top, shares, extends}

module _ {K : Type 0} (dec : Discrete K) where
  -- The children of `p` become `rest`.
  abbrev pub with_children : Dict K (List K) → K → List K → Dict K (List K)
  with_children d p [] = del dec d p
  with_children d p (c ∷ cs) = put dec d p (c ∷ cs)

  abbrev pub pruned_tree : Tree K → K → K → Tree K
  pruned_tree tree r p = record {
    parents = del dec tree.parents r;
    children = with_children tree.children p (without dec r (children_of dec tree p));
  }

  set_children_lem :
      (tree : Tree K) (p : K) (cs rest : List K)
      → get dec tree.children p ≡ some cs
      → set_children dec p rest tree
        ≡ (ok tt, record tree { children = with_children tree.children p rest })
  unfolding set_children
  set_children_lem tree p cs [] h = rw h refl
  set_children_lem tree p cs (c ∷ rest) h = refl

  pub has_parent-no_node :
      (tree : Tree K) (r p : K)
      → get dec tree.parents r ≡ some p
      → get dec tree.parents p ≡ none
      → has_parent dec tree r ≡ false
  unfolding has_parent has_node has
  has_parent-no_node tree r p hr hp = rw (hr, has_parent) (ground arith)

  pub prune_node_lem :
      (tree : Tree K) (r p : K)
      → get dec tree.parents r ≡ some p
      → get dec tree.parents p ≡ none
      → elem dec r (children_of dec tree p) ≡ true
      → prune_node dec r tree ≡ (ok tt, pruned_tree tree r p)
  unfolding prune_node children_of
  prune_node_lem tree r p hr hp inside = elim (Option-cases (get dec tree.children p)) [
    | inl out ↦ absurd (ground arith)
    | inr (cs, h) ↦
        rw (has_parent-no_node tree r p hr hp, hr)
          (set_children_lem (record tree { parents = del dec tree.parents r }) p cs
            (without dec r (children_of dec tree p)) h)
  ]

  children_of-with_children :
      (d : Dict K (List K)) (parents : Dict K K) (p q : K) (rest : List K)
      → children_of dec (record { parents = parents; children = with_children d p rest }) q
        ≡ ite (dec q p) rest (children_of dec (record { parents = parents; children = d }) q)
  unfolding children_of
  children_of-with_children d parents p q [] = elim (dec q p) [
    | yes e ↦ ground (arith, get-del_self dec d p q e)
    | no ne ↦ ground (arith, get-del_ne dec d p q ne)
  ]
  children_of-with_children d parents p q (c ∷ cs) = elim (dec q p) [
    | yes e ↦ ground (arith, get-put_self dec d p q (c ∷ cs) e)
    | no ne ↦ ground (arith, get-put_ne dec d p q (c ∷ cs) ne)
  ]

  ite-Distinct :
      {A : Type 0} (d : Dec A) (xs ys : List K)
      → Distinct dec xs
      → Distinct dec ys
      → Distinct dec (ite d xs ys)
  ite-Distinct (yes _) xs ys p q = p
  ite-Distinct (no _) xs ys p q = q

  -- The tracker after `prune`, with the heap that `prune_to` leaves.
  abbrev pub pruned : RootTracker K → K → K → Heap K → RootTracker K
  pruned t r p h' = record {
    tree = pruned_tree t.tree r p;
    roots = del dec t.roots r;
    original_depth_to_root = del dec t.original_depth_to_root r;
    cache = [];
    heap = h';
  }

  -- What the proof needs of that heap: the children of `r` are roots, and the objects of other
  -- nodes are unchanged, except those that are shared with a parent.
  pub record IsUprooted (t : RootTracker K) (r : K) (h' : Heap K) : Type 0 where
    pub same_next : h'.next ≡ t.heap.next
    pub still :
        (b : Ref) (o : TreeRoot K)
        → t.heap.cell b ≡ some o
        → (o' : TreeRoot K) × (h'.cell b ≡ some o')
    pub kept :
        (b : Ref) (o o' : TreeRoot K) (n q : K)
        → t.heap.cell b ≡ some o
        → h'.cell b ≡ some o'
        → get dec t.tree.parents n ≡ some q
        → q ≢ r
        → n ≢ r
        → o.root_id ≡ n
        → o' ≡ o
    pub rooted :
        (c : K) (y : IsNode dec t c r)
        → get dec t.tree.parents c ≡ some r
        → (o : TreeRoot K) × (h'.cell y.object ≡ some o)
          × (o.root_id ≡ c)
          × (o.extends_root ≡ none)
          × (pos y.depth +ℤ o.depth_offset ≡ pos 0)

  module _ (t : RootTracker K) (v : IsTracker dec t) (r p : K)
      (hr : get dec t.tree.parents r ≡ some p) (hp : get dec t.tree.parents p ≡ none) (h' : Heap K)
      (u : IsUprooted t r h') where
    abbrev t' : RootTracker K
    t' = pruned t r p h'

    old_parent :
        (n q : K)
        → get dec t'.tree.parents n ≡ some q
        → (n ≢ r) × (get dec t.tree.parents n ≡ some q)
    old_parent n q h = get-del_found dec t.tree.parents r n q h

    children_of-pruned :
        (q : K)
        → children_of dec t'.tree q
          ≡ ite (dec q p) (without dec r (children_of dec t.tree p)) (children_of dec t.tree q)
    unfolding children_of
    children_of-pruned q =
        children_of-with_children t.tree.children t'.tree.parents p q
          (without dec r (children_of dec t.tree p))

    -- A child of the pruned root has become a root.
    new_top : (n : K) → n ≢ r → get dec t.tree.parents n ≡ some r → IsNode dec t' n r
    new_top n ne h =
        let y = v.node n r h in
        let (o, at, own, free, zero_depth) = u.rooted n y h in
        record {
          object = y.object;
          depth = y.depth;
          value = o;
          root_at = get-del_ne dec t.roots r n ne ∙ y.root_at;
          depth_at = get-del_ne dec t.original_depth_to_root r n ne ∙ y.depth_at;
          cell_at = at;
          allocated = subst (λ z. y.object < z) (sym u.same_next) y.allocated;
          placed = top (get-del_self dec t.tree.parents r r refl) own free zero_depth;
        }

    still-Placed :
        (n q : K) (b : Ref) (k : ℕ) (o o' : TreeRoot K)
        → q ≢ r
        → (o.root_id ≡ n → o' ≡ o)
        → Placed dec t n q b k o
        → Placed dec t' n q b k o'
    still-Placed n q b k o o' ne same (top h1 h2 h3 h4) =
        let e = same h2 in rw e (top (get-del-none dec t.tree.parents r q h1) h2 h3 h4)
    still-Placed n q b k o o' ne same (shares q' j h1 h2 h3 h4) =
        shares q' j (get-del_ne dec t.tree.parents r q ne ∙ h1) (get-del_ne dec t.roots r q ne ∙ h2)
          (get-del_ne dec t.original_depth_to_root r q ne ∙ h3) h4
    still-Placed n q b k o o' ne same (extends q' j b' h1 h2 h3 h4 h5 h6) =
        let e = same h4 in
        rw e (
          extends q' j b' (get-del_ne dec t.tree.parents r q ne ∙ h1)
            (get-del_ne dec t.roots r q ne ∙ h2)
            (get-del_ne dec t.original_depth_to_root r q ne ∙ h3) h4 h5 h6)

    old_node : (n q : K) → n ≢ r → q ≢ r → get dec t.tree.parents n ≡ some q → IsNode dec t' n q
    old_node n q ne ne' h =
        let y = v.node n q h in
        let (o', at) = u.still y.object y.value y.cell_at in
        record {
          object = y.object;
          depth = y.depth;
          value = o';
          root_at = get-del_ne dec t.roots r n ne ∙ y.root_at;
          depth_at = get-del_ne dec t.original_depth_to_root r n ne ∙ y.depth_at;
          cell_at = at;
          allocated = subst (λ z. y.object < z) (sym u.same_next) y.allocated;
          placed =
              still-Placed n q y.object y.depth y.value o' ne'
                (λ own. u.kept y.object y.value o' n q y.cell_at at h ne' ne own) y.placed;
        }

    child_before :
        (c q : K)
        → elem dec c (children_of dec t'.tree q) ≡ true
        → (elem dec c (children_of dec t.tree q) ≡ true) × (c ≡ r → q ≢ p)
    child_before c q inside =
        let at = ap (elem dec c) (children_of-pruned q) in
        elim (dec q p) [
          | yes e ↦
              let left = sym at ∙ inside in
              ground (arith, elem-without dec r c (children_of dec t.tree p))
          | no ne ↦ (ground arith, λ _. ne)
        ]

    child_after :
        (c q : K)
        → c ≢ r
        → elem dec c (children_of dec t.tree q) ≡ true
        → elem dec c (children_of dec t'.tree q) ≡ true
    child_after c q ne inside =
        let at = ap (elem dec c) (children_of-pruned q) in
        elim (dec q p) [
          | yes e ↦ ground (arith, elem-without dec r c (children_of dec t.tree p))
          | no ne' ↦ ground arith
        ]

    Distinct-after : (q : K) → Distinct dec (children_of dec t'.tree q)
    Distinct-after q = rw (children_of-pruned q) (
        ite-Distinct (dec q p) (without dec r (children_of dec t.tree p)) (children_of dec t.tree q)
          (without-Distinct dec r (children_of dec t.tree p) (v.children_distinct p))
          (v.children_distinct q))

    nothing_cached : CachesRoots dec t'
    unfolding get
    nothing_cached n s z h = absurd (some-ne-none h refl)

    pub pruned-IsTracker : IsTracker dec t'
    pruned-IsTracker = record {
      node = λ n q h.
          let (ne, h0) = old_parent n q h in
          elim (dec q r) [
            | yes e ↦ subst (λ z. IsNode dec t' n z) (sym e) (new_top n ne (h0 ∙ ap some e))
            | no ne' ↦ old_node n q ne ne' h0
          ];
      rooted = λ n b h.
          let (ne, h0) = get-del_found dec t.roots r n b h in
          let (q, hq) = v.rooted n b h0 in (q, get-del_ne dec t.tree.parents r n ne ∙ hq);
      shares_once = λ m n q b hm hn hq h1 h2.
          v.shares_once m n q b (old_parent m q hm).1 (old_parent n q hn).1
            (get-del_found dec t.roots r q b hq).1 (get-del_found dec t.roots r m b h1).1
            (get-del_found dec t.roots r n b h2).1;
      acyclic = λ n q h.
          let (ne, h0) = old_parent n q h in
          let (s, d, w) = v.acyclic n q h0 in RootOf-del_root dec t.tree.parents r d n s ne w;
      children_exact = λ c q inside.
          let (before, apart) = child_before c q inside in
          let h0 = v.children_exact c q before in
          let ne : c ≢ r = λ e. apart e (some_inj h0 (ap (get dec t.tree.parents) e ∙ hr)) in
          get-del_ne dec t.tree.parents r c ne ∙ h0;
      children_all =
          λ c q h. let (ne, h0) = old_parent c q h in child_after c q ne (v.children_all c q h0);
      children_distinct = Distinct-after;
      cached = nothing_cached;
    }
