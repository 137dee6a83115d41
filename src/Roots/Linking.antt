-- ===== src/Roots/Linking.antt =====
-- `_link_children`: the roots of the waiting children come to extend the root of their new parent.
use trinity.Prelude.{
  ℕ, suc, ◌+◌, ◌≡◌, ◌≢◌, refl, sym, ap, subst, ◌∙◌, Option, none, some, List, [], ◌∷◌, arith, true,
  false, elem, Distinct, some_inj, ◌⊎◌, inl, inr, ==_iff, ℕ_discrete,
}
use trinity.Prelude.Exec.{ok, for_each}
use trinity.Prelude.Int.{ℤ, pos, is_zero, ◌+ℤ◌, ◌-ℤ◌, int_laws, parts}
use trinity.Prelude.Dict.{get}
use trinity.Roots.Object.{
  Ref, TreeRoot, Heap, update, true_root_loop, depth_offset, get_true_root, extend,
}
use trinity.Roots.Tracker.{RootTracker, link_child, link_children}

module _ {K : Type 0} (dec : Discrete K) where
  -- A child whose parent was missing: its object is a root of its own, at depth 0.
  pub record IsLoose (t : RootTracker K) (m : K) (b : Ref) (k : ℕ) (o : TreeRoot K) : Type 0 where
    pub root_at : get dec t.roots m ≡ some b
    pub depth_at : get dec t.original_depth_to_root m ≡ some k
    pub cell_at : t.heap.cell b ≡ some o
    pub own : o.root_id ≡ m
    pub free : o.extends_root ≡ none
    pub at_zero : pos k +ℤ o.depth_offset ≡ pos 0

  abbrev pub AllLoose : RootTracker K → List K → Type 0
  AllLoose t cs =
      (m : K) → elem dec m cs ≡ true → (b : Ref) × (k : ℕ) × (o : TreeRoot K) × IsLoose t m b k o

  abbrev pub with_heap : RootTracker K → Heap K → RootTracker K
  with_heap t h = record t { heap = h }

  -- The object of a child, linked below the object `a` at the depth `K`.
  abbrev relinked : TreeRoot K → Ref → ℕ → ℕ → TreeRoot K
  relinked o a depth k = record o {
    extends_root = some a;
    depth_extension = pos (depth + 1) -ℤ pos k;
  }

  abbrev pub linked_heap : Heap K → Ref → TreeRoot K → Heap K
  linked_heap h b o = record h { cell = update h.cell b o }

  pub is_zero_of : (z : ℤ) → z ≡ pos 0 → is_zero z ≡ true
  is_zero_of z e = ground arith

  pub own_offset :
      (fuel : ℕ) (b : Ref) (h : Heap K) {o : TreeRoot K}
      → h.cell b ≡ some o
      → o.extends_root ≡ none
      → depth_offset (suc fuel) b h ≡ (ok (o.depth_offset +ℤ pos 0), h)
  unfolding depth_offset get_true_root true_root_loop
  own_offset fuel b h p q = ground arith

  pub extend_free :
      (b a : Ref) (z : ℤ) (h : Heap K) {o : TreeRoot K}
      → h.cell b ≡ some o
      → o.extends_root ≡ none
      → extend b a z h
        ≡ (ok tt, linked_heap h b (record o { extends_root = some a; depth_extension = z }))
  unfolding extend
  extend_free b a z h p q = ground arith

  link_child_lem :
      (t : RootTracker K) (a : Ref) (depth : ℕ) (c : K) (b : Ref) (k : ℕ) (o : TreeRoot K)
      → IsLoose t c b k o
      → link_child dec a depth c t
        ≡ (ok tt, with_heap t (linked_heap t.heap b (relinked o a depth k)))
  unfolding link_child
  link_child_lem t a depth c b k o x =
      let z : o.depth_offset +ℤ pos 0 +ℤ pos k ≡ pos 0 = omega (int_laws, parts x.at_zero) in
      rw (
        x.root_at,
        own_offset _ b t.heap x.cell_at x.free,
        x.depth_at,
        is_zero_of _ z,
        extend_free b a (pos (depth + 1) -ℤ pos k) t.heap x.cell_at x.free,
      )

  -- What `_link_children` leaves on the heap.
  pub record IsLinked (t : RootTracker K) (a : Ref) (depth : ℕ) (cs : List K) (h : Heap K)
      : Type 0 where
    pub same_next : h.next ≡ t.heap.next
    pub kept :
        (b : Ref) (o : TreeRoot K)
        → t.heap.cell b ≡ some o
        → (o' : TreeRoot K) × (h.cell b ≡ some o') × ((o' ≡ o) ⊎ (elem dec o.root_id cs ≡ true))
    pub linked :
        (m : K) (b : Ref) (k : ℕ) (o : TreeRoot K)
        → elem dec m cs ≡ true
        → IsLoose t m b k o
        → (o' : TreeRoot K) × (h.cell b ≡ some o')
          × (o'.root_id ≡ m)
          × (o'.extends_root ≡ some a)
          × (pos k +ℤ o'.depth_extension ≡ pos (suc depth))

  relinked_depth :
      (o : TreeRoot K) (a : Ref) (depth k : ℕ)
      → pos k +ℤ (relinked o a depth k).depth_extension ≡ pos (suc depth)
  relinked_depth o a depth k = omega int_laws

  elem_head : (z c : K) (cs : List K) → z ≡ c → elem dec z (c ∷ cs) ≡ true
  elem_head z c cs e = ground arith

  elem_tail : (z c : K) (cs : List K) → elem dec z cs ≡ true → elem dec z (c ∷ cs) ≡ true
  elem_tail z c cs h = ground arith

  elem_rest : (z c : K) (cs : List K) → z ≢ c → elem dec z (c ∷ cs) ≡ true → elem dec z cs ≡ true
  elem_rest z c cs ne h = ground arith

  pub update_self :
      (cell : Ref → Option (TreeRoot K)) (b x : Ref) (o : TreeRoot K)
      → x ≡ b
      → update cell b o x ≡ some o
  update_self cell b x o e = ground (arith, ==_iff x b)

  pub update_ne :
      (cell : Ref → Option (TreeRoot K)) (b x : Ref) (o : TreeRoot K)
      → x ≢ b
      → update cell b o x ≡ cell x
  update_ne cell b x o ne = ground (arith, ==_iff x b)

  -- One child linked, the others are as loose as before.
  module _ (t : RootTracker K) (a : Ref) (depth : ℕ) (c : K) (b : Ref) (k : ℕ) (o : TreeRoot K)
      (x : IsLoose t c b k o) where
    next_t : RootTracker K
    next_t = with_heap t (linked_heap t.heap b (relinked o a depth k))

    other_object :
        (m : K) (b' : Ref) (k' : ℕ) (o' : TreeRoot K) → m ≢ c → IsLoose t m b' k' o' → b' ≢ b
    other_object m b' k' o' ne y e =
        let same : o' ≡ o = some_inj y.cell_at (ap t.heap.cell e ∙ x.cell_at) in
        ne (sym y.own ∙ ap (λ (z : TreeRoot K). z.root_id) same ∙ x.own)

    still-IsLoose :
        (m : K) (b' : Ref) (k' : ℕ) (o' : TreeRoot K)
        → m ≢ c
        → IsLoose t m b' k' o'
        → IsLoose next_t m b' k' o'
    unfolding next_t
    still-IsLoose m b' k' o' ne y = record {
      root_at = y.root_at;
      depth_at = y.depth_at;
      cell_at =
          update_ne t.heap.cell b b' (relinked o a depth k) (other_object m b' k' o' ne y)
          ∙ y.cell_at;
      own = y.own;
      free = y.free;
      at_zero = y.at_zero;
    }

    module _ (cs : List K) (out : elem dec c cs ≡ false) where
      apart : (m : K) → elem dec m cs ≡ true → m ≢ c
      apart m h e = differ (sym h ∙ ap (λ z. elem dec z cs) e ∙ out)
        where
          differ : true ≡ false → ⊥
          differ p = cc

      rest_loose : AllLoose t (c ∷ cs) → AllLoose next_t cs
      rest_loose all m h =
          let (b', k', o', y) = all m (elem_tail m c cs h) in
          (b', k', o', still-IsLoose m b' k' o' (apart m h) y)

      ResultAt : Heap K → K → Ref → ℕ → Type 0
      ResultAt h m b' k' =
          (o' : TreeRoot K) × (h.cell b' ≡ some o')
          × (o'.root_id ≡ m)
          × (o'.extends_root ≡ some a)
          × (pos k' +ℤ o'.depth_extension ≡ pos (suc depth))

      linked_here : (h : Heap K) → IsLinked next_t a depth cs h → ResultAt h c b k
      unfolding next_t ResultAt
      linked_here h l =
          let (o2, at2, how) =
            l.kept b (relinked o a depth k)
              (update_self t.heap.cell b b (relinked o a depth k) refl) in
          elim how [
            | inl e ↦ (
              o2,
              at2,
              ap (λ (z : TreeRoot K). z.root_id) e ∙ x.own,
              ap (λ (z : TreeRoot K). z.extends_root) e,
              ap (λ (z : TreeRoot K). pos k +ℤ z.depth_extension) e ∙ relinked_depth o a depth k,
            )
            | inr inside ↦ absurd (apart o.root_id inside x.own)
          ]

      moved_result :
          (h : Heap K) (m : K) (b' : Ref) (k' : ℕ) (o' : TreeRoot K)
          → m ≡ c
          → IsLoose t m b' k' o'
          → ResultAt h c b k
          → ResultAt h m b' k'
      moved_result h m b' k' o' e y res =
          let eb : b ≡ b' = some_inj (ap (get dec t.roots) e ∙ x.root_at) y.root_at in
          let ek : k ≡ k' =
            some_inj (ap (get dec t.original_depth_to_root) e ∙ x.depth_at) y.depth_at in
          subst (λ z. ResultAt h m b' z) ek
            (subst (λ z. ResultAt h m z k) eb (subst (λ z. ResultAt h z b k) (sym e) res))

      IsLinked-cons : (h : Heap K) → IsLinked next_t a depth cs h → IsLinked t a depth (c ∷ cs) h
      unfolding next_t ResultAt
      IsLinked-cons h l = record {
        same_next = l.same_next;
        kept = λ b' o' at. elim (ℕ_discrete b' b) [
          | yes e ↦
              let (o2, at2, _) =
                l.kept b' (relinked o a depth k)
                  (update_self t.heap.cell b b' (relinked o a depth k) e) in
              let same : o' ≡ o = some_inj at (ap t.heap.cell e ∙ x.cell_at) in
              (
                o2,
                at2,
                inr (elem_head o'.root_id c cs (ap (λ (z : TreeRoot K). z.root_id) same ∙ x.own)),
              )
          | no ne ↦
              let (o2, at2, how) =
                l.kept b' o' (update_ne t.heap.cell b b' (relinked o a depth k) ne ∙ at) in
              (o2, at2, elim how [ inl e ↦ inl e | inr h' ↦ inr (elem_tail o'.root_id c cs h') ])
        ];
        linked = λ m b' k' o' inside y. elim (dec m c) [
          | yes e ↦ moved_result h m b' k' o' e y (linked_here h l)
          | no ne ↦ l.linked m b' k' o' (elem_rest m c cs ne inside) (still-IsLoose m b' k' o' ne y)
        ];
      }

  -- The loop links every loose child and touches no other object.
  pub link_children_lem :
      (cs : List K) (t : RootTracker K) (a : Ref) (depth : ℕ)
      → Distinct dec cs
      → AllLoose t cs
      → (h : Heap K) × (link_children dec a depth cs t ≡ (ok tt, with_heap t h))
        × IsLinked t a depth cs h
  unfolding link_children for_each next_t
  link_children_lem [] t a depth d all = (
    t.heap,
    refl,
    record {
      same_next = refl;
      kept = λ b o at. (o, at, inl refl);
      linked = λ m b k o inside y. cc;
    },
  )
  link_children_lem (c ∷ cs) t a depth d all =
      let (b, k, o, x) = all c (elem_head c c cs refl) in
      let (h, run, l) =
        link_children_lem cs (next_t t a depth c b k o x) a depth d.1
          (rest_loose t a depth c b k o x cs d.0 all) in
      (h, rw (link_child_lem t a depth c b k o x) run, IsLinked-cons t a depth c b k o x cs d.0 h l)
