-- ===== src/Roots/Walk.antt =====
-- The specification of `RootTracker`: the root of a node and its depth, by walking up the parents.
use trinity.Prelude.{
  ℕ, zero, suc, ◌<◌, ◌≡◌, ◌≢◌, refl, sym, ap, subst, ◌∙◌, none, some, arith, some_inj, inl, inr,
  ◌⊎◌,
}
use trinity.Prelude.Dict.{
  Dict, get, put, del, size, get-put_ne, get-put_self, get-del_ne, get-del_self, get-del-none,
  size-del-lt,
}

module _ {K : Type 0} (dec : Discrete K) where
  -- From `n` it is `d` steps to `r`, whose parent is no node.
  abbrev pub RootOf : Dict K K → K → K → ℕ → Type 0
  RootOf ps n r zero = (p : K) × (n ≡ r) × (get dec ps n ≡ some p) × (get dec ps p ≡ none)
  RootOf ps n r (suc d) = (p : K) × (get dec ps n ≡ some p) × RootOf ps p r d

  -- A walk starts at a node.
  pub RootOf-node :
      (ps : Dict K K) (d : ℕ) (n r : K) → RootOf ps n r d → (p : K) × (get dec ps n ≡ some p)
  RootOf-node ps zero n r (p, e, hp, hn) = (p, hp)
  RootOf-node ps (suc d) n r (p, hp, w) = (p, hp)

  -- And it ends at a node whose parent is none.
  pub RootOf-end :
      (ps : Dict K K) (d : ℕ) (n r : K)
      → RootOf ps n r d
      → (p : K) × (get dec ps r ≡ some p) × (get dec ps p ≡ none)
  RootOf-end ps zero n r (p, e, hp, hn) = (p, ap (get dec ps) (sym e) ∙ hp, hn)
  RootOf-end ps (suc d) n r (p, hp, w) = RootOf-end ps d p r w

  not_node :
      (ps : Dict K K) (d : ℕ) (n r p q : K) → get dec ps p ≡ none → p ≡ n → RootOf ps n r d → ⊥
  not_node ps d n r p q hn e w = let (x, hx) = RootOf-node ps d n r w in cc

  pub RootOf-unique :
      (ps : Dict K K) (d e : ℕ) (n r s : K) → RootOf ps n r d → RootOf ps n s e → (d ≡ e) × (r ≡ s)
  RootOf-unique ps zero zero n r s (p, x, _, _) (q, y, _, _) = (refl, sym x ∙ y)
  RootOf-unique ps zero (suc e) n r s (p, x, hp, hn) (q, hq, w) =
      absurd (not_node ps e q s p q hn (some_inj hp hq) w)
  RootOf-unique ps (suc d) zero n r s (q, hq, w) (p, x, hp, hn) =
      absurd (not_node ps d q r p q hn (some_inj hp hq) w)
  RootOf-unique ps (suc d) (suc e) n r s (p, hp, v) (q, hq, w) =
      let same : q ≡ p = some_inj hq hp in
      let (x, y) = RootOf-unique ps d e p r s v (subst (λ z. RootOf ps z s e) same w) in
      (ap suc x, y)

  abbrev Far : Dict K K → K → ℕ → Type 0
  Far ps n d = (e : ℕ) (s : K) → RootOf ps n s e → d < e

  Far-ne : (ps : Dict K K) (n : K) (d : ℕ) (x r : K) → Far ps n d → RootOf ps x r d → x ≢ n
  Far-ne ps n d x r far w e = absurd (lt_irrefl (far d r (subst (λ z. RootOf ps z r d) e w)))
    where
      lt_irrefl : {m : ℕ} → m < m → ⊥
      lt_irrefl h = omega arith

  -- A walk that is too short to meet `n` does not change where `n` is deleted.
  pub RootOf-del :
      (ps : Dict K K) (n : K) (d : ℕ) (x r : K)
      → Far ps n d
      → RootOf ps x r d
      → RootOf (del dec ps n) x r d
  RootOf-del ps n zero x r far (p, e, hp, hn) = (
    p,
    e,
    get-del_ne dec ps n x (Far-ne ps n zero x r far (p, e, hp, hn)) ∙ hp,
    get-del-none dec ps n p hn,
  )
  RootOf-del ps n (suc d) x r far (p, hp, w) = (
    p,
    get-del_ne dec ps n x (Far-ne ps n (suc d) x r far (p, hp, w)) ∙ hp,
    RootOf-del ps n d p r (λ e s v. lt_of_suc (far e s v)) w,
  )
    where
      lt_of_suc : {m k : ℕ} → suc m < k → m < k
      lt_of_suc h = omega arith

  -- Where a root is deleted, a walk that went up to it ends one step before.
  pub RootOf-del_root :
      (ps : Dict K K) (r : K) (d : ℕ) (x s : K)
      → x ≢ r
      → RootOf ps x s d
      → (s' : K) × (d' : ℕ) × RootOf (del dec ps r) x s' d'
  RootOf-del_root ps r zero x s ne (p, e, hp, hn) =
      (x, 0, (p, refl, get-del_ne dec ps r x ne ∙ hp, get-del-none dec ps r p hn))
  RootOf-del_root ps r (suc d) x s ne (q, hq, w) = elim (dec q r) [
    | yes e ↦ (x, 0, (q, refl, get-del_ne dec ps r x ne ∙ hq, get-del_self dec ps r q e))
    | no ne' ↦
        let (s', d', w') = RootOf-del_root ps r d q s ne' w in
        (s', suc d', (q, get-del_ne dec ps r x ne ∙ hq, w'))
  ]

  -- So the nodes on a walk are different, and the walk is shorter than the number of nodes.
  pub RootOf-lt-size : (ps : Dict K K) (d : ℕ) (n r : K) → RootOf ps n r d → d < size ps
  RootOf-lt-size ps zero n r (p, e, hp, hn) = omega (arith, size-del-lt dec ps n p hp)
  RootOf-lt-size ps (suc d) n r (p, hp, w) = omega (
    arith,
    size-del-lt dec ps n p hp,
    RootOf-lt-size (del dec ps n) d p r (RootOf-del ps n d p r far w),
  )
    where
      far : Far ps n d
      far e s v = let (x, y) = RootOf-unique ps (suc d) e n r s (p, hp, w) v in omega arith

  -- A new node leaves the walks that do not end below it.
  module _ (ps : Dict K K) (n p : K) (fresh : get dec ps n ≡ none) where
    node_ne : (x y : K) → get dec ps x ≡ some y → x ≢ n
    node_ne x y h e = cc

    pub RootOf-put :
        (d : ℕ) (x r : K) → get dec ps r ≢ some n → RootOf ps x r d → RootOf (put dec ps n p) x r d
    RootOf-put zero x r ne (q, e, hq, hn) =
        (q, e, get-put_ne dec ps n x p (node_ne x q hq) ∙ hq, get-put_ne dec ps n q p apart ∙ hn)
      where
        apart : q ≢ n
        apart z = ne (ap (get dec ps) (sym e) ∙ hq ∙ ap some z)
    RootOf-put (suc d) x r ne (q, hq, w) =
        (q, get-put_ne dec ps n x p (node_ne x q hq) ∙ hq, RootOf-put d q r ne w)

    -- A walk that ends below the new node goes on from there.
    pub RootOf-put_below :
        (d e : ℕ) (x r s : K)
        → get dec ps r ≡ some n
        → RootOf (put dec ps n p) n s e
        → RootOf ps x r d
        → (e' : ℕ) × RootOf (put dec ps n p) x s e'
    RootOf-put_below zero e x r s below up (q, same, hq, hn) =
        (suc e, (n, get-put_ne dec ps n x p (node_ne x q hq) ∙ (ap (get dec ps) same ∙ below), up))
    RootOf-put_below (suc d) e x r s below up (q, hq, w) =
        let (e', v) = RootOf-put_below d e q r s below up w in
        (suc e', (q, get-put_ne dec ps n x p (node_ne x q hq) ∙ hq, v))

    -- The walk of the new node itself.
    pub RootOf-put_new :
        p ≢ n
        → ((r : K) (d : ℕ) → RootOf ps p r d → get dec ps r ≢ some n)
        → (get dec ps p ≡ none) ⊎ ((r : K) × (d : ℕ) × RootOf ps p r d)
        → (s : K) × (e : ℕ) × RootOf (put dec ps n p) n s e
    RootOf-put_new ne apart (inl out) =
        (n, 0, (p, refl, get-put_self dec ps n n p refl, get-put_ne dec ps n p p ne ∙ out))
    RootOf-put_new ne apart (inr (r, d, w)) =
        (r, suc d, (p, get-put_self dec ps n n p refl, RootOf-put d p r (apart r d w) w))
