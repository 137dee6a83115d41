-- ===== src/Roots/Attaching.antt =====
-- `_get_new_root`: the three ways in which a new node gets its root.
use trinity.Prelude.{
  ℕ, suc, ◌+◌, ◌≤◌, ◌<◌, ◌≡◌, ◌≢◌, refl, sym, ap, subst, ◌∙◌, none, some, List, [], ◌∷◌, ◌++◌,
  arith, true, false, elem, Option-cases, some_inj, some-ne-none, inl, inr, Bool-cases, ==_iff,
  length, leb,
}
use trinity.Prelude.Exec.{Result, ok}
use trinity.Prelude.Int.{ℤ, pos, int_laws}
use trinity.Prelude.Dict.{get, put, has, get-put, get-put_ne}
use trinity.Roots.Tree.{children_of, has_node, has_parent}
use trinity.Roots.Object.{Ref, TreeRoot, Heap, update, new_root, true_root_loop}
use trinity.Roots.Tracker.{RootTracker, get_new_root, attach}
use trinity.Roots.Walk.{RootOf}
use trinity.Roots.Invariant.{IsTracker, IsNode, Placed, top, shares, extends}
use trinity.Roots.Lookup.{Ends, ends, loop_root}
use trinity.Roots.Growth.{Attachable, grown_tree, grown, children_of-grown}
use trinity.Roots.Linking.{with_heap, extend_free, update_self, update_ne}

module _ {K : Type 0} (dec : Discrete K) where
  -- The tracker when `_get_new_root` is called.
  abbrev pub begun : RootTracker K → K → K → RootTracker K
  begun t n p = record t { cache = []; tree = grown_tree dec t.tree n p }

  -- What `_get_new_root` returns and leaves.
  pub record IsNewRoot (t : RootTracker K) (n p : K) (a : Ref) (k : ℕ) (h : Heap K) (o : TreeRoot K)
      : Type 0 where
    pub run : get_new_root dec n p (begun t n p) ≡ (ok (a, k), with_heap dec (begun t n p) h)
    pub cell_at : h.cell a ≡ some o
    pub in_heap : a < h.next
    pub grows : t.heap.next ≤ h.next
    pub old :
        (b : Ref) (o' : TreeRoot K) → b < t.heap.next → t.heap.cell b ≡ some o' → h.cell b ≡ some o'
    pub placed :
        (h' : Heap K) (o' : TreeRoot K)
        → (o.root_id ≡ n → o' ≡ o)
        → Placed dec (grown dec t n p a k h') n p a k o'
    pub new_apart : (m : K) → get dec t.tree.parents m ≡ some n → get dec t.roots m ≢ some a
    pub first_child : (m : K) → get dec t.tree.parents m ≡ some p → get dec t.roots p ≢ some a

  abbrev fresh_root : K → TreeRoot K
  fresh_root n = record {
    root_id = n;
    depth_offset = pos 0;
    extends_root = none;
    depth_extension = pos 0;
  }

  abbrev allocated_heap : Heap K → TreeRoot K → Heap K
  allocated_heap h o = record { cell = update h.cell h.next o; next = suc h.next }

  alloc_self : (h : Heap K) (o : TreeRoot K) → (allocated_heap h o).cell h.next ≡ some o
  alloc_self h o = ground (arith, ==_iff h.next h.next)

  alloc_old :
      (h : Heap K) (o : TreeRoot K) (b : Ref) (o' : TreeRoot K)
      → b < h.next
      → h.cell b ≡ some o'
      → (allocated_heap h o).cell b ≡ some o'
  alloc_old h o b o' lt e = ground (arith, ==_iff b h.next)

  module _ (t : RootTracker K) (n p : K) (v : IsTracker dec t) (w : Attachable dec t n p) where
    object_below :
        (m q : K) → get dec t.tree.parents m ≡ some q → get dec t.roots m ≢ some t.heap.next
    object_below m q hq e =
        let x = v.node m q hq in
        let same : x.object ≡ t.heap.next = some_inj x.root_at e in
        lt_irrefl (subst (λ z. z < t.heap.next) same x.allocated)
      where
        lt_irrefl : {m : ℕ} → m < m → ⊥
        lt_irrefl h = omega arith

    has_parent-begun : has_parent dec (begun t n p).tree n ≡ has dec t.tree.parents p
    unfolding has_parent has_node has
    has_parent-begun =
        ground
          (arith, get-put dec t.tree.parents n n p, get-put dec t.tree.parents n p p, w.not_self)

    -- The parent is missing.
    detached_root :
        get dec t.tree.parents p ≡ none
        → IsNewRoot t n p t.heap.next 0 (allocated_heap t.heap (fresh_root n)) (fresh_root n)
    unfolding get_new_root new_root has
    detached_root out = record {
      run = ground (arith, has_parent-begun);
      cell_at = alloc_self t.heap (fresh_root n);
      in_heap = omega arith;
      grows = omega arith;
      old = alloc_old t.heap (fresh_root n);
      placed = λ h' o' same.
          subst (Placed dec (grown dec t n p t.heap.next 0 h') n p t.heap.next 0) (sym (same refl))
            (top (get-put_ne dec t.tree.parents n p p w.not_self ∙ out) refl refl (omega int_laws));
      new_apart = λ m hm. object_below m n hm;
      first_child = λ m hm e. let (q, hq) = v.rooted p t.heap.next e in some-ne-none hq out;
    }

    -- The parent is there and has children: a root of its own that extends the parent's.
    module _ (q : K) (hq : get dec t.tree.parents p ≡ some q) where
      parent : IsNode dec t p q
      parent = v.node p q hq

      branch_root : TreeRoot K
      branch_root = record (fresh_root n) {
        extends_root = some parent.object;
        depth_extension = pos 0;
      }

      branch_heap : Heap K
      branch_heap = record {
        cell = update (allocated_heap t.heap (fresh_root n)).cell t.heap.next branch_root;
        next = suc t.heap.next;
      }

      siblings : children_of dec (grown_tree dec t.tree n p) p ≡ children_of dec t.tree p ++ n ∷ []
      siblings = ground (arith, children_of-grown dec t.tree n p p)

      attach_branch :
          leb 2 (length (children_of dec t.tree p ++ n ∷ [])) ≡ true
          → attach dec n p (begun t n p)
            ≡ (ok (t.heap.next, parent.depth + 1), with_heap dec (begun t n p) branch_heap)
      unfolding attach new_root branch_heap branch_root
      attach_branch two = rw (
        parent.root_at,
        siblings,
        two,
        extend_free dec t.heap.next parent.object (pos 0) (allocated_heap t.heap (fresh_root n))
            (alloc_self t.heap (fresh_root n)) refl,
        parent.depth_at,
      )

      attach_shared :
          leb 2 (length (children_of dec t.tree p ++ n ∷ [])) ≡ false
          → attach dec n p (begun t n p) ≡ (ok (parent.object, parent.depth + 1), begun t n p)
      unfolding attach
      attach_shared one = rw (parent.root_at, siblings, one, parent.depth_at)

      -- A child of the new node has an object that is the parent's only in a cycle.
      child_apart :
          (m : K) → get dec t.tree.parents m ≡ some n → get dec t.roots m ≢ some parent.object
      child_apart m hm e = apart_case (v.acyclic p q hq) (v.node m n hm).placed
        where
          x : IsNode dec t m n
          x = v.node m n hm

          same_object : x.object ≡ parent.object
          same_object = some_inj x.root_at e

          -- The chain of the parent ends at the child's object, so the child is its root.
          at_root :
              (r : K) (d : ℕ)
              → RootOf dec t.tree.parents p r d
              → x.value.root_id ≡ m
              → x.value.extends_root ≡ none
              → ⊥
          at_root r d u own free =
              let f : Ends dec t p r d (suc d) (pos 0) =
                ends dec t v d (suc d) (pos 0) p r (omega arith) u in
              let same : f.object ≡ x.object =
                some_inj f.root_at parent.root_at ∙ sym same_object in
              let there : true_root_loop (suc d) f.object (pos 0) t.heap ≡ ok (x.object, pos 0) =
                ap (λ z. true_root_loop (suc d) z (pos 0) t.heap) same
                ∙ loop_root dec d x.object (pos 0) t.heap x.cell_at free in
              let root : f.root ≡ x.object = ok_root (sym f.chain ∙ there) in
              let value : f.value ≡ x.value =
                some_inj f.value_at (ap t.heap.cell root ∙ x.cell_at) in
              let here : r ≡ m = sym f.is_root ∙ ap (λ (z : TreeRoot K). z.root_id) value ∙ own in
              w.not_below r d u (ap (get dec t.tree.parents) here ∙ hm)
            where
              ok_root :
                  {a b : Ref} {y z : ℤ} → ◌≡◌ {A = Result (Ref × ℤ)} (ok (a, y)) (ok (b, z)) → a ≡ b
              ok_root h = cc

          apart_case :
              (r : K) × (d : ℕ) × RootOf dec t.tree.parents p r d
              → Placed dec t m n x.object x.depth x.value
              → ⊥
          apart_case (r, d, u) (top _ own free _) = at_root r d u own free
          apart_case _ (shares _ _ h _ _ _) = some-ne-none h w.fresh
          apart_case _ (extends _ _ _ h _ _ _ _ _) = some-ne-none h w.fresh

      parents-begun : get dec (put dec t.tree.parents n p) p ≡ some q
      parents-begun = get-put_ne dec t.tree.parents n p p w.not_self ∙ hq

      run_attach :
          (h : Heap K) (a : Ref) (k : ℕ)
          → attach dec n p (begun t n p) ≡ (ok (a, k), with_heap dec (begun t n p) h)
          → get_new_root dec n p (begun t n p) ≡ (ok (a, k), with_heap dec (begun t n p) h)
      unfolding get_new_root has
      run_attach h a k e = rw (has_parent-begun, hq, has) e

      roots-grown :
          (a k : ℕ) (h : Heap K) → get dec (grown dec t n p a k h).roots p ≡ some parent.object
      roots-grown a k h = get-put_ne dec t.roots n p a w.not_self ∙ parent.root_at

      depths-grown :
          (a k : ℕ) (h : Heap K)
          → get dec (grown dec t n p a k h).original_depth_to_root p ≡ some parent.depth
      depths-grown a k h =
          get-put_ne dec t.original_depth_to_root n p k w.not_self ∙ parent.depth_at

      branch-IsNewRoot :
          leb 2 (length (children_of dec t.tree p ++ n ∷ [])) ≡ true
          → IsNewRoot t n p t.heap.next (parent.depth + 1) branch_heap branch_root
      unfolding branch_heap branch_root
      branch-IsNewRoot two = record {
        run = run_attach branch_heap t.heap.next (parent.depth + 1) (attach_branch two);
        cell_at =
            update_self dec (allocated_heap t.heap (fresh_root n)).cell t.heap.next t.heap.next
              branch_root refl;
        in_heap = omega arith;
        grows = omega arith;
        old = λ b o' lt e.
            update_ne dec (allocated_heap t.heap (fresh_root n)).cell t.heap.next b branch_root
              (λ z. lt_ne lt z)
            ∙ alloc_old t.heap (fresh_root n) b o' lt e;
        placed = λ h' o' same.
            subst
              (Placed dec (grown dec t n p t.heap.next (parent.depth + 1) h') n p t.heap.next
                (parent.depth + 1))
              (sym (same refl))
              (extends q parent.depth parent.object parents-begun
                (roots-grown t.heap.next (parent.depth + 1) h')
                (depths-grown t.heap.next (parent.depth + 1) h') refl refl (omega int_laws));
        new_apart = λ m hm. object_below m n hm;
        first_child = λ m hm. object_below p q hq;
      }
        where
          lt_ne : {b c : Ref} → b < c → b ≡ c → ⊥
          lt_ne lt e = omega arith

      shared-IsNewRoot :
          leb 2 (length (children_of dec t.tree p ++ n ∷ [])) ≡ false
          → IsNewRoot t n p parent.object (parent.depth + 1) t.heap parent.value
      shared-IsNewRoot one = record {
        run = run_attach t.heap parent.object (parent.depth + 1) (attach_shared one);
        cell_at = parent.cell_at;
        in_heap = parent.allocated;
        grows = omega arith;
        old = λ b o' lt e. e;
        placed = λ h' o' same.
            shares q parent.depth parents-begun (roots-grown parent.object (parent.depth + 1) h')
              (depths-grown parent.object (parent.depth + 1) h') (omega arith);
        new_apart = child_apart;
        first_child = λ m hm e. only_child (children_of dec t.tree p) m (v.children_all m p hm) one;
      }
        where
          only_child :
              (cs : List K) (m : K)
              → elem dec m cs ≡ true
              → leb 2 (length (cs ++ n ∷ [])) ≡ false
              → ⊥
          only_child [] m h e = cc
          only_child (c ∷ []) m h e = cc
          only_child (c ∷ d ∷ cs) m h e = ground arith

    abbrev pub NewRoot : Type 0
    NewRoot = (a : Ref) × (k : ℕ) × (h : Heap K) × (o : TreeRoot K) × IsNewRoot t n p a k h o

    pub new_root_cases : NewRoot
    new_root_cases = elim (Option-cases (get dec t.tree.parents p)) [
      | inl out ↦
          (t.heap.next, 0, allocated_heap t.heap (fresh_root n), fresh_root n, detached_root out)
      | inr (q, hq) ↦ elim (Bool-cases (leb 2 (length (children_of dec t.tree p ++ n ∷ [])))) [
        | inl two ↦ (
          t.heap.next,
          (parent q hq).depth + 1,
          branch_heap q hq,
          branch_root q hq,
          branch-IsNewRoot q hq two,
        )
        | inr one ↦ (
          (parent q hq).object,
          (parent q hq).depth + 1,
          t.heap,
          (parent q hq).value,
          shared-IsNewRoot q hq one,
        )
      ]
    ]
