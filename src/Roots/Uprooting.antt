-- ===== src/Roots/Uprooting.antt =====
-- `RootTracker.prune` of a root: its children and their root objects, and the checks on the way.
use trinity.Prelude.{
  ℕ, suc, ◌≡◌, refl, sym, none, some, List, [], ◌∷◌, arith, Distinct, inr, ==_iff,
}
use trinity.Prelude.Exec.{ok, for_each}
use trinity.Prelude.Int.{ℤ, pos, ◌+ℤ◌, int_laws, parts}
use trinity.Prelude.Dict.{size}
use trinity.Roots.Object.{
  Ref, TreeRoot, Heap, prune_to, check_child, node_id, get_true_root, true_root_loop,
}
use trinity.Roots.Tracker.{RootTracker, check_pruned}
use trinity.Roots.Linking.{own_offset}
use trinity.Roots.Pruning.{
  Ready, shared, extended, AllReady, SharedOnce, AllRooted, names, IsPruned, prune_all_lem,
  same_self,
}

module _ {K : Type 0} (dec : Discrete K) where
  pub own_node_id :
      (fuel : ℕ) (a : Ref) (h : Heap K) {o : TreeRoot K} {c : K}
      → h.cell a ≡ some o
      → o.extends_root ≡ none
      → o.root_id ≡ c
      → node_id (suc fuel) a h ≡ (ok c, h)
  unfolding node_id get_true_root true_root_loop
  own_node_id fuel a h at free own = ground arith

  -- The three checks on the objects of the children.
  module _ (r : K) (a : Ref) (k : ℕ) where
    module _ (h : Heap K) (o : TreeRoot K) (at : h.cell a ≡ some o)
        (free : o.extends_root ≡ none) where
      check_child-Ready :
          (old : ℤ) (c : K) (b : Ref) (j : ℕ)
          → Ready dec r a k old h c b j
          → check_child dec a (c, b) h ≡ (ok tt, h)
      unfolding check_child
      check_child-Ready old c b j (shared e deep) = ground (arith, ==_iff b a)
      check_child-Ready old c b j (extended o' at' own ext deep) =
          rw (at', ext, same_self dec r a k old c o'.root_id (sym own)) (ground (arith, ==_iff a a))

      check_children :
          (old : ℤ) (j : K → ℕ) (ps : List (K × Ref))
          → AllReady dec r a k old h j ps
          → for_each (check_child dec a) ps h ≡ (ok tt, h)
      unfolding for_each
      check_children old j [] ready = refl
      check_children old j ((c, b) ∷ ps) ready =
          rw (check_child-Ready old c b (j c) ready.0) (check_children old j ps ready.1)

      abbrev pub offset : ℤ
      offset = o.depth_offset +ℤ pos 0

      -- `prune_to` runs through, and leaves every child with a root object of its own.
      pub prune_to_lem :
          (fuel : ℕ) (j : K → ℕ) (ps : List (K × Ref))
          → o.root_id ≡ r
          → pos k +ℤ o.depth_offset ≡ pos 0
          → Distinct dec (names dec r a k offset ps)
          → AllReady dec r a k offset h j ps
          → SharedOnce dec r a k offset ps
          → (h' : Heap K) × (prune_to dec (suc fuel) a ps h ≡ (ok tt, h'))
            × IsPruned dec r a k offset h h' j ps
      unfolding prune_to
      prune_to_lem fuel j ps own zero_depth d ready once =
          let e : offset ≡ o.depth_offset = omega int_laws in
          let (h', run, y) =
            prune_all_lem dec r a k offset (omega (int_laws, parts zero_depth)) ps h j o at free
              (inr (record { own = own; offset = e })) d ready once in
          (
            h',
            rw
                (
                  at,
                  free,
                  check_children offset j ps ready,
                  own_node_id fuel a h at free own,
                  own_offset dec fuel a h at free,
                )
                run,
            y,
          )

    pub check_pruned_lem :
        (old : ℤ) (t : RootTracker K) (j : K → ℕ) (ps : List (K × Ref))
        → AllRooted dec r a k old t.heap j ps
        → for_each (check_pruned dec) ps t ≡ (ok tt, t)
    unfolding for_each check_pruned
    check_pruned_lem old t j [] all = refl
    check_pruned_lem old t j ((c, b) ∷ ps) all =
        let (o, at, own, free, deep) = all.0 in
        rw
          (own_node_id (size t.tree.parents) b t.heap at free own, same_self dec r a k old c c refl)
          (check_pruned_lem old t j ps all.1)
