-- ===== src/Roots/Addition.antt =====
-- `RootTracker.add`, the whole method.
use trinity.Prelude.{
  ℕ, suc, ◌≡◌, ◌≢◌, refl, sym, ap, subst, ◌∙◌, some, List, [], arith, true, elem, some-ne-none, ◌⊎◌,
  inl, inr,
}
use trinity.Prelude.Exec.{ok, err, validation_error}
use trinity.Prelude.Int.{pos, ◌+ℤ◌}
use trinity.Prelude.Dict.{get, put, has, get-put_ne}
use trinity.Roots.Tree.{children_of, has_node, has_parent, add_node}
use trinity.Roots.Object.{Ref, TreeRoot, Heap}
use trinity.Roots.Tracker.{RootTracker, get_new_root, add, link_children}
use trinity.Roots.Invariant.{IsTracker, IsNode, Placed, top, shares, extends}
use trinity.Roots.Growth.{
  Attachable, grown_tree, grown, IsGrown, grown-IsTracker, children_of-grown,
}
use trinity.Roots.Linking.{IsLoose, AllLoose, with_heap, IsLinked, link_children_lem}
use trinity.Roots.Attaching.{IsNewRoot, new_root_cases}

module _ {K : Type 0} (dec : Discrete K) where
  module _ (t : RootTracker K) (n p : K) (v : IsTracker dec t) (w : Attachable dec t n p) where
    module _ (a : Ref) (k : ℕ) (h : Heap K) (o : TreeRoot K) (y : IsNewRoot dec t n p a k h o) where
      before_links : RootTracker K
      before_links = grown dec t n p a k h

      waiting : List K
      waiting = children_of dec t.tree n

      children_of-new : children_of dec (grown_tree dec t.tree n p) n ≡ waiting
      unfolding waiting
      children_of-new = ground (arith, children_of-grown dec t.tree n p n, w.not_self)

      loose :
          (m : K) (x : IsNode dec t m n)
          → get dec t.tree.parents m ≡ some n
          → IsLoose dec before_links m x.object x.depth x.value
      unfolding before_links
      loose m x hm = go x.placed
        where
          other : m ≢ n
          other e = some-ne-none (ap (get dec t.tree.parents) (sym e) ∙ hm) w.fresh

          go :
              Placed dec t m n x.object x.depth x.value
              → IsLoose dec (grown dec t n p a k h) m x.object x.depth x.value
          go (top _ own free zero_depth) = record {
            root_at = get-put_ne dec t.roots n m a other ∙ x.root_at;
            depth_at = get-put_ne dec t.original_depth_to_root n m k other ∙ x.depth_at;
            cell_at = y.old x.object x.value x.allocated x.cell_at;
            own = own;
            free = free;
            at_zero = zero_depth;
          }
          go (shares _ _ e _ _ _) = absurd (some-ne-none e w.fresh)
          go (extends _ _ _ e _ _ _ _ _) = absurd (some-ne-none e w.fresh)

      all_loose : AllLoose dec before_links waiting
      unfolding waiting
      all_loose m inside =
          let hm = v.children_exact m n inside in
          let x = v.node m n hm in (x.object, x.depth, x.value, loose m x hm)

      add_run :
          (h' : Heap K)
          → link_children dec a k waiting before_links ≡ (ok tt, with_heap dec before_links h')
          → add dec n p t ≡ (ok tt, grown dec t n p a k h')
      unfolding add add_node has_node has before_links get_new_root put has_parent children_of
      add_run h' links = rw (w.fresh, y.run, children_of-new, has) links

      linked_IsGrown :
          (h' : Heap K) → IsLinked dec before_links a k waiting h' → IsGrown dec t n p a k h'
      unfolding before_links waiting
      linked_IsGrown h' l =
          let (o', at, how) = l.kept a o y.cell_at in
          record {
            value = o';
            value_at = at;
            in_heap = omega (arith, y.in_heap, l.same_next);
            grows = omega (arith, y.grows, l.same_next);
            kept = λ b ob lt eb.
                let (o2, at2, how2) = l.kept b ob (y.old b ob lt eb) in
                (
                  o2,
                  at2,
                  elim how2 [
                    | inl e ↦ inl e
                    | inr inside ↦ inr (v.children_exact ob.root_id n inside)
                  ],
                );
            linked = linked_child;
            new_placed = y.placed h' o' (λ own. unchanged o' own how);
            new_apart = y.new_apart;
            first_child = y.first_child;
          }
        where
          unchanged :
              (o' : TreeRoot K)
              → o.root_id ≡ n
              → (o' ≡ o) ⊎ (elem dec o.root_id (children_of dec t.tree n) ≡ true)
              → o' ≡ o
          unchanged o' own (inl e) = e
          unchanged o' own (inr inside) = absurd (
              some-ne-none
                (v.children_exact n n
                  (subst (λ z. elem dec z (children_of dec t.tree n) ≡ true) own inside))
                w.fresh)

          linked_child :
              (m : K) (x : IsNode dec t m n)
              → get dec t.tree.parents m ≡ some n
              → (o' : TreeRoot K) × (h'.cell x.object ≡ some o')
                × (o'.root_id ≡ m)
                × (o'.extends_root ≡ some a)
                × (pos x.depth +ℤ o'.depth_extension ≡ pos (suc k))
          linked_child m x hm =
              l.linked m x.object x.depth x.value (v.children_all m n hm) (loose m x hm)

  -- `add` of a node that may join does not raise, keeps the invariant, and records the edge.
  pub add_lem :
      (t : RootTracker K) (n p : K)
      → IsTracker dec t
      → Attachable dec t n p
      → (t' : RootTracker K) × (add dec n p t ≡ (ok tt, t'))
        × IsTracker dec t'
        × (t'.tree.parents ≡ put dec t.tree.parents n p)
  unfolding waiting before_links
  add_lem t n p v w =
      let (a, k, h, o, y) = new_root_cases dec t n p v w in
      let (h', links, l) =
        link_children_lem dec (children_of dec t.tree n) (grown dec t n p a k h) a k
          (v.children_distinct n) (all_loose t n p v w a k h o y) in
      (
        grown dec t n p a k h',
        add_run t n p v w a k h o y h' links,
        grown-IsTracker dec t n p a k h' v w (linked_IsGrown t n p v w a k h o y h' l),
        refl,
      )

  pub add-IsTracker :
      (t : RootTracker K) (n p : K)
      → IsTracker dec t
      → Attachable dec t n p
      → IsTracker dec (add dec n p t).1
  add-IsTracker t n p v w =
      let (t', run, x, _) = add_lem t n p v w in subst (λ z. IsTracker dec z.1) (sym run) x

  -- `add` of a node that is there raises, and only the cache is gone.
  pub add_twice :
      (t : RootTracker K) (n p q : K)
      → get dec t.tree.parents n ≡ some q
      → add dec n p t ≡ (err validation_error, record t { cache = [] })
  unfolding add add_node has_node has
  add_twice t n p q e = rw (e, has) refl
