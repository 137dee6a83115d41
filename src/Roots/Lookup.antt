-- ===== src/Roots/Lookup.antt =====
-- `RootTracker.get_root`, and the chain of root objects that it follows.
use trinity.Prelude.{
  ℕ, zero, suc, ◌<◌, ◌≡◌, refl, sym, ap, subst, ◌∙◌, none, some, arith, false, Option-cases,
  some_inj, some-ne-none, ◌⊎◌, inl, inr,
}
use trinity.Prelude.Exec.{ok, err, validation_error}
use trinity.Prelude.Int.{ℤ, pos, ◌+ℤ◌, int_laws, parts}
use trinity.Prelude.Dict.{get, put, has, get-put_self, get-put_ne}
use trinity.Roots.Tree.{has_parent, has_node}
use trinity.Roots.Object.{Ref, TreeRoot, Heap, true_root_loop, node_id, depth_offset, get_true_root}
use trinity.Roots.Tracker.{RootTracker, fuel_for, look_up_root, get_root, get_cached}
use trinity.Roots.Walk.{RootOf, RootOf-node, RootOf-unique, RootOf-lt-size}
use trinity.Roots.Invariant.{
  IsTracker, IsNode, Placed, CachesRoots, with_cache-IsTracker, top, shares, extends,
}

module _ {K : Type 0} (dec : Discrete K) where
  -- Where the chain of extensions from the object of `n` ends: at the root object of `r`.
  pub record Ends (t : RootTracker K) (n r : K) (d fuel : ℕ) (acc : ℤ) : Type 0 where
    pub object : Ref
    pub depth : ℕ
    pub root : Ref
    pub extra : ℤ
    pub value : TreeRoot K
    pub root_at : get dec t.roots n ≡ some object
    pub depth_at : get dec t.original_depth_to_root n ≡ some depth
    pub chain : true_root_loop fuel object acc t.heap ≡ ok (root, acc +ℤ extra)
    pub value_at : t.heap.cell root ≡ some value
    pub is_root : value.root_id ≡ r
    pub total : pos depth +ℤ (value.depth_offset +ℤ extra) ≡ pos d

  pub loop_root :
      (fuel : ℕ) (a : Ref) (acc : ℤ) (h : Heap K) {o : TreeRoot K}
      → h.cell a ≡ some o
      → o.extends_root ≡ none
      → true_root_loop (suc fuel) a acc h ≡ ok (a, acc)
  unfolding true_root_loop
  loop_root fuel a acc h p q = ground arith

  loop_extension :
      (fuel : ℕ) (a b : Ref) (acc : ℤ) (h : Heap K) {o : TreeRoot K}
      → h.cell a ≡ some o
      → o.extends_root ≡ some b
      → true_root_loop (suc fuel) a acc h ≡ true_root_loop fuel b (acc +ℤ o.depth_extension) h
  unfolding true_root_loop
  loop_extension fuel a b acc h p q = ground arith

  add_zero : (z : ℤ) → z ≡ z +ℤ pos 0
  add_zero z = omega int_laws

  regroup : (a b c : ℤ) → a +ℤ b +ℤ c ≡ a +ℤ (b +ℤ c)
  regroup a b c = omega int_laws

  module _ (t : RootTracker K) (n p r : K) (x : IsNode dec t n p) where
    Ends-top :
        (fuel : ℕ) (acc : ℤ)
        → n ≡ r
        → get dec t.tree.parents p ≡ none
        → Placed dec t n p x.object x.depth x.value
        → Ends t n r 0 (suc fuel) acc
    Ends-top fuel acc e hn (top _ own free zero_depth) = record {
      object = x.object;
      depth = x.depth;
      root = x.object;
      extra = pos 0;
      value = x.value;
      root_at = x.root_at;
      depth_at = x.depth_at;
      chain =
          loop_root fuel x.object acc t.heap x.cell_at free
          ∙ ap (λ z. ok (x.object, z)) (add_zero acc);
      value_at = x.cell_at;
      is_root = own ∙ e;
      total = omega (int_laws, parts zero_depth);
    }
    Ends-top fuel acc e hn (shares q j hq _ _ _) = absurd (some-ne-none hq hn)
    Ends-top fuel acc e hn (extends q j b hq _ _ _ _ _) = absurd (some-ne-none hq hn)

    -- One step up, from what holds of the parent with the same fuel and with one less.
    Ends-up :
        (d fuel : ℕ) (acc : ℤ) (q : K)
        → get dec t.tree.parents p ≡ some q
        → Ends t p r d (suc fuel) acc
        → ((z : ℤ) → Ends t p r d fuel z)
        → Placed dec t n p x.object x.depth x.value
        → Ends t n r (suc d) (suc fuel) acc
    Ends-up d fuel acc q hq same less (top hn _ _ _) = absurd (some-ne-none hq hn)
    Ends-up d fuel acc q hq same less (shares _ j _ hb hj hk) = record {
      object = x.object;
      depth = x.depth;
      root = same.root;
      extra = same.extra;
      value = same.value;
      root_at = x.root_at;
      depth_at = x.depth_at;
      chain =
          subst (λ a. true_root_loop (suc fuel) a acc t.heap ≡ ok (same.root, acc +ℤ same.extra))
            (some_inj same.root_at hb) same.chain;
      value_at = same.value_at;
      is_root = same.is_root;
      total =
          let e : same.depth ≡ j = some_inj same.depth_at hj in omega (int_laws, parts same.total);
    }
    Ends-up d fuel acc q hq same less (extends _ j b _ hb hj own ext deep) =
        let next = less (acc +ℤ x.value.depth_extension) in
        record {
          object = x.object;
          depth = x.depth;
          root = next.root;
          extra = x.value.depth_extension +ℤ next.extra;
          value = next.value;
          root_at = x.root_at;
          depth_at = x.depth_at;
          chain =
              loop_extension fuel x.object b acc t.heap x.cell_at ext
              ∙ subst
                  (λ a.
                    true_root_loop fuel a (acc +ℤ x.value.depth_extension) t.heap
                    ≡ ok (next.root, acc +ℤ x.value.depth_extension +ℤ next.extra))
                  (some_inj next.root_at hb) next.chain
              ∙ ap (λ z. ok (next.root, z)) (regroup acc x.value.depth_extension next.extra);
          value_at = next.value_at;
          is_root = next.is_root;
          total =
              let e : next.depth ≡ j = some_inj next.depth_at hj in
              omega (int_laws, parts next.total, parts deep);
        }

  module _ (t : RootTracker K) (n r : K) (d fuel : ℕ) (x : Ends t n r d fuel (pos 0)) where
    pub node_id-Ends : node_id fuel x.object t.heap ≡ (ok r, t.heap)
    unfolding node_id get_true_root
    node_id-Ends = rw (x.chain, x.value_at, x.is_root) refl

    abbrev pub offset_of : ℤ
    offset_of = x.value.depth_offset +ℤ (pos 0 +ℤ x.extra)

    pub depth_offset-Ends :
        (depth_offset fuel x.object t.heap ≡ (ok offset_of, t.heap))
        × (pos x.depth +ℤ offset_of ≡ pos d)
    unfolding depth_offset get_true_root
    depth_offset-Ends = (rw (x.chain, x.value_at) refl, omega (int_laws, parts x.total))

  module _ (t : RootTracker K) (v : IsTracker dec t) where
    pub ends :
        (d fuel : ℕ) (acc : ℤ) (n r : K)
        → d < fuel
        → RootOf dec t.tree.parents n r d
        → Ends t n r d fuel acc
    ends d zero acc n r lt w = elim lt [ ]
    ends zero (suc fuel) acc n r lt (p, e, hp, hn) =
        let x = v.node n p hp in Ends-top t n p r x fuel acc e hn x.placed
    ends (suc d) (suc fuel) acc n r lt (p, hp, w) =
        let x = v.node n p hp in
        let (q, hq) = RootOf-node dec t.tree.parents d p r w in
        Ends-up t n p r x d fuel acc q hq (ends d (suc fuel) acc p r (omega arith) w)
          (λ z. ends d fuel z p r (omega arith) w) x.placed

    abbrev pub Root : K → K → ℕ → Type 0
    Root n r d = RootOf dec t.tree.parents n r d

    pub fueled : {n r : K} (d : ℕ) → Root n r d → Ends t n r d (fuel_for dec t) (pos 0)
    fueled {n} {r} d w =
        ends d (fuel_for dec t) (pos 0) n r
          (omega (arith, RootOf-lt-size dec t.tree.parents d n r w)) w

    -- A root has no parent in the tree.
    has_parent-Root : (d : ℕ) (n r : K) → Root n r d → has_parent dec t.tree r ≡ false
    unfolding has_parent has_node has
    has_parent-Root zero n r (p, e, hp, hn) = rw (← e, hp, has_parent) (ground arith)
    has_parent-Root (suc d) n r (p, hp, w) = has_parent-Root d p r w

    look_up_root_lem :
        (d : ℕ) (n r : K)
        → Root n r d
        → look_up_root dec n t ≡ (ok (r, pos d), record t { cache = put dec t.cache n (r, pos d) })
    unfolding look_up_root
    look_up_root_lem d n r w =
        let x = fueled d w in
        let (offset, total) = depth_offset-Ends t n r d (fuel_for dec t) x in
        rw (
          x.root_at,
          x.depth_at,
          node_id-Ends t n r d (fuel_for dec t) x,
          offset,
          has_parent-Root d n r w,
          total,
        )

    put-CachesRoots :
        (d : ℕ) (n r : K)
        → Root n r d
        → CachesRoots dec (record t { cache = put dec t.cache n (r, pos d) })
    put-CachesRoots d n r w m s z h = elim (dec m n) [
      | yes e ↦
          let same : (r, pos d) ≡ (s, z) = some_inj (get-put_self dec t.cache n m (r, pos d) e) h in
          (
            d,
            sym (ap (λ (y : K × ℤ). y.1) same),
            subst (λ y. RootOf dec t.tree.parents m y d) (ap (λ (y : K × ℤ). y.0) same)
                (subst (λ y. RootOf dec t.tree.parents y r d) (sym e) w),
          )
      | no ne ↦ v.cached m s z (sym (get-put_ne dec t.cache n m (r, pos d) ne) ∙ h)
    ]

    -- What `get_root` answers for a node whose walk is known.
    abbrev Answers : K → K → ℕ → Type 0
    Answers n r d =
        (t' : RootTracker K) × (get_root dec n t ≡ (ok (r, pos d), t'))
        × IsTracker dec t'
        × (t'.tree ≡ t.tree)

    Answers-uncached : (d : ℕ) (n r : K) → Root n r d → get dec t.cache n ≡ none → Answers n r d
    unfolding get_root
    Answers-uncached d n r w h = (
      record t { cache = put dec t.cache n (r, pos d) },
      rw ((fueled d w).root_at, h, get_root) (look_up_root_lem d n r w),
      with_cache-IsTracker dec t (put dec t.cache n (r, pos d)) v (put-CachesRoots d n r w),
      refl,
    )

    Answers-cached :
        (d : ℕ) (n r s : K) (z : ℤ) → Root n r d → get dec t.cache n ≡ some (s, z) → Answers n r d
    unfolding get_root get_cached
    Answers-cached d n r s z w h =
        let (e, whole, known) = v.cached n s z h in
        let (same_depth, same_root) = RootOf-unique dec t.tree.parents d e n r s w known in
        (
          t,
          rw ((fueled d w).root_at, h, has_parent-Root e n s known, get_root)
              (cc (whole, ap pos same_depth, same_root)),
          v,
          refl,
        )

    answers : (d : ℕ) (n r : K) → Root n r d → Answers n r d
    answers d n r w = elim (Option-cases (get dec t.cache n)) [
      | inl h ↦ Answers-uncached d n r w h
      | inr (entry, h) ↦ Answers-cached d n r entry.0 entry.1 w h
    ]

    get_root_missing :
        (n : K) → get dec t.tree.parents n ≡ none → get_root dec n t ≡ (err validation_error, t)
    unfolding get_root
    get_root_missing n h = elim (Option-cases (get dec t.roots n)) [
      | inl out ↦ rw (out, get_root) refl
      | inr (a, at) ↦ let (p, hp) = v.rooted n a at in absurd (some-ne-none hp h)
    ]

    -- On a tracker that keeps the invariant `get_root` raises for what is no node, and returns for
    -- every node the root that its walk up the parents ends at, with the length of the walk. It
    -- keeps the invariant and does not change the tree.
    pub get_root_lem :
        (n : K)
        → ((get dec t.tree.parents n ≡ none) × (get_root dec n t ≡ (err validation_error, t)))
          ⊎ ((r : K) × (d : ℕ) × RootOf dec t.tree.parents n r d × Answers n r d)
    get_root_lem n = elim (Option-cases (get dec t.tree.parents n)) [
      | inl out ↦ inl (out, get_root_missing n out)
      | inr (p, hp) ↦ let (r, d, w) = v.acyclic n p hp in inr (r, d, w, answers d n r w)
    ]
