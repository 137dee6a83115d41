-- ===== src/Roots/Removal.antt =====
-- `RootTracker.prune`: what it finds at a root of the forest, and the children it pairs up.
use trinity.Prelude.{
  ℕ, suc, ◌≡◌, ◌≢◌, refl, sym, ap, ◌∙◌, Option, none, some, List, [], ◌∷◌, arith, true, false, elem,
  Distinct, some_inj, some-ne-none,
}
use trinity.Prelude.Exec.{ok}
use trinity.Prelude.Int.{ℤ, pos, ◌+ℤ◌}
use trinity.Prelude.Dict.{get}
use trinity.Roots.Object.{Ref, Heap}
use trinity.Roots.Tracker.{RootTracker, pairs}
use trinity.Roots.Invariant.{IsTracker, IsNode, Placed, top, shares, extends}
use trinity.Roots.Pruning.{Ready, shared, extended, AllReady, NoneShared, SharedOnce, names}

module _ {K : Type 0} (dec : Discrete K) where
  abbrev pub or_zero : Option ℕ → ℕ
  or_zero none = 0
  or_zero (some n) = n

  abbrev pub object_of : RootTracker K → K → Ref
  object_of t c = or_zero (get dec t.roots c)

  abbrev pub depth_of : RootTracker K → K → ℕ
  depth_of t c = or_zero (get dec t.original_depth_to_root c)

  abbrev pub pairs_of : RootTracker K → List K → List (K × Ref)
  pairs_of t [] = []
  pairs_of t (c ∷ cs) = (c, object_of t c) ∷ pairs_of t cs

  -- `r` is a root of the forest: its parent is no node.
  module _ (t : RootTracker K) (v : IsTracker dec t) (r p : K)
      (hr : get dec t.tree.parents r ≡ some p) (hp : get dec t.tree.parents p ≡ none) where
    abbrev pub x : IsNode dec t r p
    x = v.node r p hr

    abbrev pub IsTop : Type 0
    IsTop =
        (x.value.root_id ≡ r)
        × (x.value.extends_root ≡ none)
        × (pos x.depth +ℤ x.value.depth_offset ≡ pos 0)

    pub is_top : IsTop
    is_top = of x.placed
      where
        of : Placed dec t r p x.object x.depth x.value → IsTop
        of (top h1 h2 h3 h4) = (h2, h3, h4)
        of (shares q j h1 h2 h3 h4) = absurd (some-ne-none h1 hp)
        of (extends q j b h1 h2 h3 h4 h5 h6) = absurd (some-ne-none h1 hp)

    abbrev AllChildren : List K → Type 0
    AllChildren cs = (c : K) → elem dec c cs ≡ true → get dec t.tree.parents c ≡ some r

    tail_children : (c : K) (cs : List K) → AllChildren (c ∷ cs) → AllChildren cs
    tail_children c cs all d inside = all d (ground arith)

    child : (c : K) (cs : List K) → AllChildren (c ∷ cs) → IsNode dec t c r
    child c cs all = v.node c r (all c (ground arith))

    pub pairs_lem :
        (s : RootTracker K) (cs : List K)
        → s.roots ≡ t.roots
        → AllChildren cs
        → pairs dec cs s ≡ (ok (pairs_of t cs), s)
    unfolding pairs
    pairs_lem s [] e all = refl
    pairs_lem s (c ∷ cs) e all =
        let y = child c cs all in
        rw
          (
            ap (λ d. get dec d c) e ∙ y.root_at,
            y.root_at,
            pairs_lem s cs e (tail_children c cs all),
          )
          refl

    module _ (old : ℤ) where
      pub names-pairs_of : (cs : List K) → names dec r x.object x.depth old (pairs_of t cs) ≡ cs
      names-pairs_of [] = refl
      names-pairs_of (c ∷ cs) = ap (◌∷◌ c) (names-pairs_of cs)

      child-Ready :
          (h : Heap K) (c : K) (y : IsNode dec t c r)
          → h.cell ≡ t.heap.cell
          → Ready dec r x.object x.depth old h c y.object y.depth
      child-Ready h c y e = of y.placed
        where
          of :
              Placed dec t c r y.object y.depth y.value
              → Ready dec r x.object x.depth old h c y.object y.depth
          of (top h1 h2 h3 h4) = absurd (some-ne-none hr h1)
          of (shares q j h1 h2 h3 h4) =
              shared (some_inj h2 x.root_at) (h4 ∙ ap suc (some_inj h3 x.depth_at))
          of (extends q j b h1 h2 h3 h4 h5 h6) =
              extended y.value (ap (λ f. f y.object) e ∙ y.cell_at) h4
                (h5 ∙ ap some (some_inj h2 x.root_at))
                (h6 ∙ ap (λ m. pos (suc m)) (some_inj h3 x.depth_at))

      pub pairs_of-AllReady :
          (cs : List K)
          → AllChildren cs
          → AllReady dec r x.object x.depth old t.heap (depth_of t) (pairs_of t cs)
      pairs_of-AllReady [] all = tt
      pairs_of-AllReady (c ∷ cs) all =
          let y = child c cs all in
          (
            rw (y.root_at, y.depth_at) (child-Ready t.heap c y refl),
            pairs_of-AllReady cs (tail_children c cs all),
          )

      others_apart :
          (c : K) (y : IsNode dec t c r) (hc : get dec t.tree.parents c ≡ some r) (cs : List K)
          → elem dec c cs ≡ false
          → AllChildren cs
          → y.object ≡ x.object
          → NoneShared dec r x.object x.depth old (pairs_of t cs)
      others_apart c y hc [] out all e = tt
      others_apart c y hc (d ∷ cs) out all e =
          (apart, others_apart c y hc cs (ground arith) (tail_children d cs all) e)
        where
          differs : d ≢ c
          differs e' = ground arith

          apart : object_of t d ≢ x.object
          apart e' = differs (
              v.shares_once d c r x.object (all d (ground arith)) hc x.root_at
                ((child d cs all).root_at
                  ∙ ap some (sym (ap or_zero (child d cs all).root_at) ∙ e'))
                (y.root_at ∙ ap some e))

      pub pairs_of-SharedOnce :
          (cs : List K)
          → Distinct dec cs
          → AllChildren cs
          → SharedOnce dec r x.object x.depth old (pairs_of t cs)
      pairs_of-SharedOnce [] d all = tt
      pairs_of-SharedOnce (c ∷ cs) d all =
          let y = child c cs all in
          (
            λ e.
                others_apart c y (all c (ground arith)) cs d.0 (tail_children c cs all)
                  (sym (ap or_zero y.root_at) ∙ e),
            pairs_of-SharedOnce cs d.1 (tail_children c cs all),
          )
