-- ===== src/Roots/Pruning.antt =====
-- The second loop of `TreeRoot.prune_to`, on the heap.
use trinity.Prelude.{
  Bool, subst, ap, ◌∙◌, some_inj, some-ne-none, inl, inr, Distinct, false, ℕ_discrete, ℕ, suc, ◌≡◌,
  ◌≢◌, refl, sym, none, some, List, [], ◌∷◌, arith, true, elem, ◌⊎◌, ==_iff,
}
use trinity.Prelude.Exec.{ok, for_each, Exec}
use trinity.Prelude.Int.{ℤ, pos, negsuc, equal_ℤ, ◌+ℤ◌, ◌-ℤ◌, int_laws, parts}
use trinity.Roots.Object.{Ref, TreeRoot, Heap, same, prune_one, prune_root, prune_extension}
use trinity.Roots.Linking.{linked_heap, update_self, update_ne}

module _ {K : Type 0} (dec : Discrete K) where
  -- The pruned node `r` with its root object, and the offset that `prune_to` reads first.
  module _ (r : K) (a : Ref) (k : ℕ) (old : ℤ) where
    -- The object of the pruned root, before it moves down to a child.
    pub record IsPrunable (o : TreeRoot K) : Type 0 where
      pub own : o.root_id ≡ r
      pub offset : old ≡ o.depth_offset

    -- A child that shares the object of the root, or has one that extends it.
    pub data Ready (h : Heap K) (c : K) (b : Ref) (j : ℕ) : Type 0 where
      shared : b ≡ a → j ≡ suc k → Ready h c b j
      extended :
          (o : TreeRoot K)
          → h.cell b ≡ some o
          → o.root_id ≡ c
          → o.extends_root ≡ some a
          → pos j +ℤ o.depth_extension ≡ pos (suc k)
          → Ready h c b j

    -- The object of a child that has become a root.
    abbrev pub Rooted : Heap K → K → Ref → ℕ → Type 0
    Rooted h c b j =
        (o : TreeRoot K) × (h.cell b ≡ some o)
        × (o.root_id ≡ c)
        × (o.extends_root ≡ none)
        × (pos j +ℤ o.depth_offset ≡ pos 0)

    pub same_self : (x y : K) → x ≡ y → same dec x y ≡ true
    same_self x y e = ground arith

    equal_self : (x y : ℤ) → x ≡ y → equal_ℤ x y ≡ true
    equal_self (pos x) (pos y) e = ground (arith, ==_iff x y)
    equal_self (pos x) (negsuc y) e = cc
    equal_self (negsuc x) (pos y) e = cc
    equal_self (negsuc x) (negsuc y) e = ground (arith, ==_iff x y)

    abbrev moved_down : TreeRoot K → K → TreeRoot K
    moved_down o c = record o { depth_offset = o.depth_offset -ℤ pos 1; root_id = c }

    abbrev set_free : TreeRoot K → TreeRoot K
    set_free o = record o { extends_root = none; depth_offset = old -ℤ pos 1 +ℤ o.depth_extension }

    prune_shared :
        (h : Heap K) (c : K) (o : TreeRoot K)
        → h.cell a ≡ some o
        → o.extends_root ≡ none
        → IsPrunable o
        → prune_one dec a r c old h ≡ (ok tt, linked_heap dec h a (moved_down o c))
    unfolding prune_one prune_root
    prune_shared h c o at free x =
        ground (arith, same_self r o.root_id (sym x.own), equal_self old o.depth_offset x.offset)

    prune_extended :
        (h : Heap K) (c : K) (b : Ref) (o top : TreeRoot K)
        → h.cell b ≡ some o
        → o.root_id ≡ c
        → o.extends_root ≡ some a
        → h.cell a ≡ some top
        → top.extends_root ≡ none
        → prune_one dec b r c old h ≡ (ok tt, linked_heap dec h b (set_free o))
    unfolding prune_one prune_extension
    prune_extended h c b o top at own ext at_top free =
        rw (at, ext, at_top, free, same_self c o.root_id (sym own)) refl

    -- The children with their objects, as `prune` pairs them up.
    abbrev pub Depths : Type 0
    Depths = K → ℕ

    abbrev pub names : List (K × Ref) → List K
    names [] = []
    names (e ∷ ps) = e.0 ∷ names ps

    abbrev pub AllReady : Heap K → Depths → List (K × Ref) → Type 0
    AllReady h j [] = Unit
    AllReady h j (e ∷ ps) = Ready h e.0 e.1 (j e.0) × AllReady h j ps

    -- None of the children shares the object of the root.
    abbrev pub NoneShared : List (K × Ref) → Type 0
    NoneShared [] = Unit
    NoneShared (e ∷ ps) = (e.1 ≢ a) × NoneShared ps

    -- At most one does.
    abbrev pub SharedOnce : List (K × Ref) → Type 0
    SharedOnce [] = Unit
    SharedOnce (e ∷ ps) = (e.1 ≡ a → NoneShared ps) × SharedOnce ps

    abbrev pub AllRooted : Heap K → Depths → List (K × Ref) → Type 0
    AllRooted h j [] = Unit
    AllRooted h j (e ∷ ps) = Rooted h e.0 e.1 (j e.0) × AllRooted h j ps

    -- How an object may have changed: not at all, or as one of the children's own, or as the root's.
    abbrev pub Changed : List (K × Ref) → Ref → TreeRoot K → TreeRoot K → Type 0
    Changed ps b o o' =
        (o' ≡ o)
        ⊎ (((elem dec o.root_id (names ps) ≡ true) × (o.extends_root ≡ some a))
            ⊎ ((b ≡ a) × ¬ NoneShared ps))

    -- What the second loop of `prune_to` leaves on the heap.
    pub record IsPruned (h h' : Heap K) (j : Depths) (ps : List (K × Ref)) : Type 0 where
      pub same_next : h'.next ≡ h.next
      pub kept :
          (b : Ref) (o : TreeRoot K)
          → h.cell b ≡ some o
          → (o' : TreeRoot K) × (h'.cell b ≡ some o') × Changed ps b o o'
      pub rooted : AllRooted h' j ps

    abbrev pub prune_all : List (K × Ref) → Exec (Heap K) Unit
    prune_all ps = for_each (λ pair. prune_one dec pair.1 r pair.0 old) ps

    -- A child freed, with its object before and after.
    record IsFreed (h : Heap K) (c : K) (b : Ref) (j : ℕ) : Type 0 where
      value : TreeRoot K
      run : prune_one dec b r c old h ≡ (ok tt, linked_heap dec h b value)
      own : value.root_id ≡ c
      free : value.extends_root ≡ none
      at_zero : pos j +ℤ value.depth_offset ≡ pos 0
      before :
          (o : TreeRoot K)
          → h.cell b ≡ some o
          → ((o.root_id ≡ c) × (o.extends_root ≡ some a)) ⊎ (b ≡ a)

    module _ (zero_depth : pos k +ℤ old ≡ pos 0) where
      free_child :
          (h : Heap K) (c : K) (b : Ref) (j : ℕ) (top : TreeRoot K)
          → h.cell a ≡ some top
          → top.extends_root ≡ none
          → (b ≡ a → IsPrunable top)
          → Ready h c b j
          → IsFreed h c b j
      free_child h c b j top at free x (shared e deep) = record {
        value = moved_down top c;
        run =
            subst (λ z. prune_one dec z r c old h ≡ (ok tt, linked_heap dec h z (moved_down top c)))
              (sym e) (prune_shared h c top at free (x e));
        own = refl;
        free = free;
        at_zero = omega (int_laws, parts zero_depth, parts (x e).offset);
        before = λ o h. inr e;
      }
      free_child h c b j top at free x (extended o at_b own ext deep) = record {
        value = set_free o;
        run = prune_extended h c b o top at_b own ext at free;
        own = own;
        free = refl;
        at_zero = omega (int_laws, parts zero_depth, parts deep);
        before = λ o' h'.
            let same : o ≡ o' = some_inj at_b h' in
            inl (
              subst (λ (z : TreeRoot K). (z.root_id ≡ c) × (z.extends_root ≡ some a)) same
                (own, ext));
      }

      -- The other children are as ready as before.
      AllReady-kept :
          (h : Heap K) (j : Depths) (c : K) (b : Ref) (x : IsFreed h c b (j c)) (top : TreeRoot K)
          → h.cell a ≡ some top
          → top.extends_root ≡ none
          → (ps : List (K × Ref)) → elem dec c (names ps) ≡ false
          → AllReady h j ps
          → AllReady (linked_heap dec h b x.value) j ps
      AllReady-kept h j c b x top at free [] out ready = tt
      AllReady-kept h j c b x top at free ((d, b') ∷ ps) out ready =
          (still ready.0, AllReady-kept h j c b x top at free ps (ground arith) ready.1)
        where
          other : d ≢ c
          other e = ground arith

          apart :
              (o : TreeRoot K)
              → h.cell b' ≡ some o
              → o.root_id ≡ d
              → o.extends_root ≡ some a
              → b' ≢ b
          apart o at_b' own ext e = elim (x.before o (ap h.cell (sym e) ∙ at_b')) [
            | inl (own', _) ↦ other (sym own ∙ own')
            | inr e' ↦
                let same : o ≡ top = some_inj at_b' (ap h.cell (e ∙ e') ∙ at) in
                some-ne-none ext (ap (λ (z : TreeRoot K). z.extends_root) same ∙ free)
          ]

          still : Ready h d b' (j d) → Ready (linked_heap dec h b x.value) d b' (j d)
          still (shared e deep) = shared e deep
          still (extended o at_b' own ext deep) =
              extended o (update_ne dec h.cell b b' x.value (apart o at_b' own ext) ∙ at_b') own ext
                deep

      module _ (h : Heap K) (j : Depths) (c : K) (b : Ref) (x : IsFreed h c b (j c))
          (ps : List (K × Ref)) (out : elem dec c (names ps) ≡ false)
          (once : b ≡ a → NoneShared ps) where
        freed : Heap K
        freed = linked_heap dec h b x.value

        -- The object of the pruned root after the first child.
        top_after :
            (top : TreeRoot K)
            → h.cell a ≡ some top
            → top.extends_root ≡ none
            → ((b ≢ a) → NoneShared ps ⊎ IsPrunable top)
            → (top' : TreeRoot K) × (freed.cell a ≡ some top')
              × (top'.extends_root ≡ none)
              × (NoneShared ps ⊎ IsPrunable top')
        unfolding freed
        top_after top at free still = elim (ℕ_discrete b a) [
          | yes e ↦ (x.value, update_self dec h.cell b a x.value (sym e), x.free, inl (once e))
          | no ne ↦ (top, update_ne dec h.cell b a x.value (λ e. ne (sym e)) ∙ at, free, still ne)
        ]

        module _ (h' : Heap K) (y : IsPruned freed h' j ps) where
          Rooted-first : Rooted h' c b (j c)
          unfolding freed
          Rooted-first =
              let (o', at, how) = y.kept b x.value (update_self dec h.cell b b x.value refl) in
              let same : o' ≡ x.value = first_same o' how in
              (x.value, at ∙ ap some same, x.own, x.free, x.at_zero)
            where
              first_same : (o' : TreeRoot K) → Changed ps b x.value o' → o' ≡ x.value
              first_same o' (inl e) = e
              first_same o' (inr (inl (inside, _))) =
                  absurd (Bool-apart (ap (λ z. elem dec z (names ps)) x.own ∙ out) inside)
                where
                  Bool-apart : {u : Bool} → u ≡ false → u ≡ true → ⊥
                  Bool-apart p q = cc
              first_same o' (inr (inr (e, some_shared))) = absurd (some_shared (once e))

          more : (b' : Ref) (o o' : TreeRoot K) → Changed ps b' o o' → Changed ((c, b) ∷ ps) b' o o'
          more b' o o' (inl e) = inl e
          more b' o o' (inr (inl (inside, ext))) = inr (inl (ground arith, ext))
          more b' o o' (inr (inr (e, shared_later))) =
              inr (inr (e, λ none_of. shared_later none_of.1))

          kept_first :
              (b' : Ref) (o : TreeRoot K)
              → h.cell b' ≡ some o
              → (o' : TreeRoot K) × (h'.cell b' ≡ some o') × Changed ((c, b) ∷ ps) b' o o'
          unfolding freed
          kept_first b' o at = elim (ℕ_discrete b' b) [
            | yes e ↦
                let (o', at', _) = y.kept b' x.value (update_self dec h.cell b b' x.value e) in
                (
                  o',
                  at',
                  inr (elim (x.before o (ap h.cell (sym e) ∙ at)) [
                    | inl (own, ext) ↦ inl (ground arith, ext)
                    | inr e' ↦ inr (e ∙ e', λ none_of. none_of.0 e')
                  ]),
                )
            | no ne ↦
                let (o', at', how) = y.kept b' o (update_ne dec h.cell b b' x.value ne ∙ at) in
                (o', at', more b' o o' how)
          ]

          IsPruned-cons : IsPruned h h' j ((c, b) ∷ ps)
          unfolding freed
          IsPruned-cons = record {
            same_next = y.same_next;
            kept = kept_first;
            rooted = (Rooted-first, y.rooted);
          }

      -- The second loop of `prune_to` makes every child the root of its own object.
      pub prune_all_lem :
          (ps : List (K × Ref)) (h : Heap K) (j : Depths) (top : TreeRoot K)
          → h.cell a ≡ some top
          → top.extends_root ≡ none
          → (NoneShared ps ⊎ IsPrunable top)
          → Distinct dec (names ps)
          → AllReady h j ps
          → SharedOnce ps
          → (h' : Heap K) × (prune_all ps h ≡ (ok tt, h')) × IsPruned h h' j ps
      unfolding for_each freed
      prune_all_lem [] h j top at free still d ready once =
          (h, refl, record { same_next = refl; kept = λ b o at. (o, at, inl refl); rooted = tt })
      prune_all_lem ((c, b) ∷ ps) h j top at free still d ready once =
          let x = free_child h c b (j c) top at free (prunable still) ready.0 in
          let (top', at', free', still') =
            top_after h j c b x ps d.0 once.0 top at free (rest still) in
          let (h', run, y) =
            prune_all_lem ps (linked_heap dec h b x.value) j top' at' free' still' d.1
              (AllReady-kept h j c b x top at free ps d.0 ready.1) once.1 in
          (h', rw x.run run, IsPruned-cons h j c b x ps d.0 once.0 h' y)
        where
          prunable : (NoneShared ((c, b) ∷ ps) ⊎ IsPrunable top) → b ≡ a → IsPrunable top
          prunable (inl none_of) e = absurd (none_of.0 e)
          prunable (inr x) e = x

          rest :
              (NoneShared ((c, b) ∷ ps) ⊎ IsPrunable top) → b ≢ a → NoneShared ps ⊎ IsPrunable top
          rest (inl none_of) ne = inl none_of.1
          rest (inr x) ne = inr x
