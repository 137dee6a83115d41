-- ===== src/Roots/PruneRoot.antt =====
-- `RootTracker.prune` as a whole.
use trinity.Prelude.{
  ℕ, ◌≡◌, ◌≢◌, refl, sym, ap, subst, ◌∙◌, none, some, List, [], ◌∷◌, arith, true, false, elem,
  Distinct, inl, inr, some_inj, some-ne-none, Bool-cases, Option-cases,
}
use trinity.Prelude.Exec.{ok, err, validation_error}
use trinity.Prelude.Int.{ℤ, pos, ◌+ℤ◌}
use trinity.Prelude.Dict.{get, del, has, size, has-some, has-none}
use trinity.Roots.Tree.{children_of}
use trinity.Roots.Object.{Ref, TreeRoot, Heap, same}
use trinity.Roots.Tracker.{RootTracker, prune, fuel_for}
use trinity.Roots.Walk.{RootOf, RootOf-end}
use trinity.Roots.Invariant.{IsTracker, IsNode}
use trinity.Roots.Lookup.{fueled, node_id-Ends}
use trinity.Roots.Pruning.{IsPruned, AllRooted, Rooted, same_self, Changed}
use trinity.Roots.Uprooting.{prune_to_lem, check_pruned_lem, own_node_id}
use trinity.Roots.Removal.{
  x, is_top, pairs_lem, pairs_of, names-pairs_of, pairs_of-AllReady, pairs_of-SharedOnce, depth_of,
  object_of, or_zero,
}
use trinity.Roots.Removed.{pruned, pruned-IsTracker, IsUprooted, has_parent-no_node, prune_node_lem}

module _ {K : Type 0} (dec : Discrete K) where
  module _ (t : RootTracker K) (v : IsTracker dec t) (r p : K)
      (hr : get dec t.tree.parents r ≡ some p) (hp : get dec t.tree.parents p ≡ none) where
    abbrev root : IsNode dec t r p
    root = x dec t v r p hr hp

    abbrev cs : List K
    cs = children_of dec t.tree r

    abbrev old : ℤ
    old = root.value.depth_offset +ℤ pos 0

    all : (c : K) → elem dec c cs ≡ true → get dec t.tree.parents c ≡ some r
    all c = v.children_exact c r

    Rooted-at :
        (h' : Heap K) (c : K) (ds : List K)
        → AllRooted dec r root.object root.depth old h' (depth_of dec t) (pairs_of dec t ds)
        → elem dec c ds ≡ true
        → Rooted dec r root.object root.depth old h' c (object_of dec t c) (depth_of dec t c)
    Rooted-at h' c [] rooted inside = ground arith
    Rooted-at h' c (d ∷ ds) rooted inside = elim (dec c d) [
      | yes e ↦
          subst
            (λ z.
              Rooted dec r root.object root.depth old h' z (object_of dec t z) (depth_of dec t z))
            (sym e) rooted.0
      | no ne ↦ Rooted-at h' c ds rooted.1 (ground arith)
    ]

    -- What `prune_to` leaves is what the invariant of the pruned tracker needs.
    uprooted :
        (h' : Heap K)
        → IsPruned dec r root.object root.depth old t.heap h' (depth_of dec t) (pairs_of dec t cs)
        → IsUprooted dec t r h'
    uprooted h' y = record {
      same_next = y.same_next;
      still = λ b o at. let (o', at', _) = y.kept b o at in (o', at');
      kept = λ b o o' n q at at' hn ne ne' own.
          let (o'', at'', how) = y.kept b o at in
          some_inj at' at'' ∙ same b o o'' n q at hn ne ne' own how;
      rooted = λ c z hc.
          let (o, at, own, free, deep) = Rooted-at h' c cs y.rooted (v.children_all c r hc) in
          (
            o,
            subst (λ b. h'.cell b ≡ some o) (ap (or_zero dec) z.root_at) at,
            own,
            free,
            subst (λ m. pos m +ℤ o.depth_offset ≡ pos 0) (ap (or_zero dec) z.depth_at) deep,
          );
    }
      where
        same :
            (b : Ref) (o o'' : TreeRoot K) (n q : K)
            → t.heap.cell b ≡ some o
            → get dec t.tree.parents n ≡ some q
            → q ≢ r
            → n ≢ r
            → o.root_id ≡ n
            → Changed dec r root.object root.depth old (pairs_of dec t cs) b o o''
            → o'' ≡ o
        same b o o'' n q at hn ne ne' own (inl e) = e
        same b o o'' n q at hn ne ne' own (inr (inl (inside, _))) =
            let among : elem dec n cs ≡ true =
              ap (λ z. elem dec z cs) (sym own)
              ∙ (ap (elem dec o.root_id) (sym (names-pairs_of dec t v r p hr hp old cs))
                  ∙ inside) in
            absurd (ne (some_inj hn (all n among)))
        same b o o'' n q at hn ne ne' own (inr (inr (e, _))) =
            let it : o ≡ root.value = some_inj at (ap t.heap.cell e ∙ root.cell_at) in
            absurd (
              ne'
                (sym own ∙ (ap (λ (z : TreeRoot K). z.root_id) it ∙ (is_top dec t v r p hr hp).0)))

    -- `prune` of a root does not raise and keeps the invariant: the node is gone, and its children
    -- are roots.
    pub prune_lem :
        (t' : RootTracker K) × (prune dec r t ≡ (ok tt, t'))
        × IsTracker dec t'
        × (t'.tree.parents ≡ del dec t.tree.parents r)
    unfolding prune
    prune_lem =
        let (own, free, zero_depth) = is_top dec t v r p hr hp in
        let fuel = size t.tree.parents in
        let (h', run, y) =
          prune_to_lem dec r root.object root.depth t.heap root.value root.cell_at free fuel
            (depth_of dec t) (pairs_of dec t cs) own zero_depth
            (subst (Distinct dec) (sym (names-pairs_of dec t v r p hr hp old cs))
              (v.children_distinct r))
            (pairs_of-AllReady dec t v r p hr hp old cs all)
            (pairs_of-SharedOnce dec t v r p hr hp old cs (v.children_distinct r) all) in
        let s : RootTracker K = record t { cache = [] } in
        (
          pruned dec t r p h',
          rw
              (
                has-some dec t.original_depth_to_root r root.depth root.depth_at,
                has-some dec t.roots r root.object root.root_at,
                root.root_at,
                own_node_id dec fuel root.object t.heap root.cell_at free own,
                same_self dec r root.object root.depth old r r refl,
                has_parent-no_node dec t.tree r p hr hp,
                pairs_lem dec t v r p hr hp s cs refl all,
                run,
                check_pruned_lem dec r root.object root.depth old (record s { heap = h' })
                    (depth_of dec t) (pairs_of dec t cs) y.rooted,
                prune_node_lem dec t.tree r p hr hp (v.children_all r p hr),
              )
              refl,
          pruned-IsTracker dec t v r p hr hp h' (uprooted h' y),
          refl,
        )

  module _ (t : RootTracker K) (v : IsTracker dec t) (n : K) where
    -- The walk of a node that is no root ends at another node.
    root_differs :
        (r : K) (d : ℕ)
        → ((p : K) → get dec t.tree.parents n ≡ some p → get dec t.tree.parents p ≢ none)
        → RootOf dec t.tree.parents n r d
        → n ≢ r
    root_differs r d inner w e =
        let (p, hp, hn) = RootOf-end dec t.tree.parents d n r w in
        inner p (ap (get dec t.tree.parents) e ∙ hp) hn

    same_ne : (a b : K) → a ≢ b → same dec b a ≡ false
    same_ne a b ne = ground arith

    prune_inner :
        (p : K)
        → ((q : K) → get dec t.tree.parents n ≡ some q → get dec t.tree.parents q ≢ none)
        → get dec t.tree.parents n ≡ some p
        → (prune dec n t).0 ≡ err validation_error
    unfolding prune
    prune_inner p inner hp =
        let (r, d, w) = v.acyclic n p hp in
        let x = fueled dec t v d w in
        rw
          (
            has-some dec t.original_depth_to_root n x.depth x.depth_at,
            has-some dec t.roots n x.object x.root_at,
            x.root_at,
            node_id-Ends dec t n r d (fuel_for dec t) x,
            same_ne n r (root_differs r d inner w),
          )
          refl

    prune_missing : get dec t.tree.parents n ≡ none → (prune dec n t).0 ≡ err validation_error
    unfolding prune
    prune_missing out = elim (Bool-cases (has dec t.original_depth_to_root n)) [
      | inl e ↦ rw (e, no_root) refl
      | inr e ↦ rw e refl
    ]
      where
        no_root : has dec t.roots n ≡ false
        no_root = elim (Option-cases (get dec t.roots n)) [
          | inl none_at ↦ has-none dec t.roots n none_at
          | inr (a, at) ↦ let (p, hp) = v.rooted n a at in absurd (some-ne-none hp out)
        ]

    -- On a tracker that keeps the invariant `prune` raises for whatever is not a root: for what is
    -- no node, and for a node whose parent is a node.
    pub prune_not_root :
        ((p : K) → get dec t.tree.parents n ≡ some p → get dec t.tree.parents p ≢ none)
        → (prune dec n t).0 ≡ err validation_error
    prune_not_root inner = elim (Option-cases (get dec t.tree.parents n)) [
      | inl out ↦ prune_missing out
      | inr (p, hp) ↦ prune_inner p inner hp
    ]
