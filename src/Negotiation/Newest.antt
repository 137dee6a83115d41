-- ===== src/Negotiation/Newest.antt =====
-- The newest version of a name among the shared capabilities.
use trinity.Prelude.Members.{pair_discrete}
use trinity.Prelude.{
  ℕ, ◌≤◌, ◌≡◌, ◌∙◌, refl, sym, true, false, Option, none, some, List, [], ◌∷◌, elem, ite, arith,
  ℕ_discrete,
}
use trinity.Prelude.Sorting.{IsSorted, elem-sort_by, sort_by-IsSorted, AllAfter-elem}
use trinity.Negotiation.Capabilities.{Capability, newer, sort_by_version}
use trinity.Negotiation.Groups.{with_name}

abbrev pub head? : {A : Type 0} → List A → Option A
head? [] = none
head? (x ∷ xs) = some x

abbrev pub cons? : {A : Type 0} → Option A → List A → List A
cons? none xs = xs
cons? (some x) xs = x ∷ xs

module _ {Name : Type 0} (dec : Discrete Name) where
  abbrev pub dec_capability : Discrete (Capability Name)
  dec_capability = pair_discrete dec ℕ_discrete

  -- The last version of a name.
  unfoldable pub newest : Name → List (Capability Name) → Option (Capability Name)
  newest n cs = head? (sort_by_version (with_name dec n cs))

  -- `c` is shared, and no shared version of its name is higher.
  abbrev pub IsHighest : List (Capability Name) → Capability Name → Type 0
  IsHighest cs c =
      (elem dec_capability c cs ≡ true)
      × ((v : ℕ) → elem dec_capability (c.0, v) cs ≡ true → v ≤ c.1)

  pub elem-with_name :
      (n : Name) (c : Capability Name) (cs : List (Capability Name))
      → elem dec_capability c (with_name dec n cs)
        ≡ ite (dec n c.0) (elem dec_capability c cs) false
  elem-with_name n c [] = ground arith
  elem-with_name n c (b ∷ bs) = ground (arith, elem-with_name n c bs)

  newer_total : (a b : Capability Name) → newer a b ≡ false → newer b a ≡ true
  newer_total a b h = ground arith

  newer_trans : (a b c : Capability Name) → newer a b ≡ true → newer b c ≡ true → newer a c ≡ true
  newer_trans a b c h k = ground arith

  head_newest :
      (cs : List (Capability Name)) (c b : Capability Name)
      → IsSorted newer cs
      → head? cs ≡ some c
      → elem dec_capability b cs ≡ true
      → b.1 ≤ c.1
  head_newest [] c b s h k = absurd (ground arith)
  head_newest (a ∷ more) c b s h k = ground (arith, AllAfter-elem dec_capability newer a b more)

  head_member :
      (cs : List (Capability Name)) (c : Capability Name)
      → head? cs ≡ some c
      → elem dec_capability c cs ≡ true
  head_member [] c h = absurd (ground arith)
  head_member (a ∷ more) c h = ground arith

  pub newest_sound :
      (cs : List (Capability Name)) (n : Name) (c : Capability Name)
      → newest n cs ≡ some c
      → (n ≡ c.0) × IsHighest cs c
  unfolding newest
  newest_sound cs n c h =
      let group = with_name dec n cs in
      let sorted = sort_by-IsSorted newer newer_trans newer_total group in
      let member : elem dec_capability c group ≡ true =
        sym (elem-sort_by dec_capability newer c group) ∙ head_member (sort_by_version group) c h in
      let named : n ≡ c.0 = ground (arith, elem-with_name n c cs) in
      (
        named,
        (
          ground (arith, elem-with_name n c cs),
          λ v k.
              head_newest (sort_by_version group) c (c.0, v) sorted h
                (elem-sort_by dec_capability newer (c.0, v) group
                  ∙ ground (arith, elem-with_name n (c.0, v) cs)),
        ),
      )

  pub head?_member :
      (cs : List (Capability Name)) (c : Capability Name)
      → elem dec_capability c cs ≡ true
      → (b : Capability Name) × (head? cs ≡ some b)
  head?_member [] c h = absurd (ground arith)
  head?_member (a ∷ more) c h = (a, refl)

  pub newest_exists :
      (cs : List (Capability Name)) (c : Capability Name)
      → elem dec_capability c cs ≡ true
      → (b : Capability Name) × (newest c.0 cs ≡ some b)
  unfolding newest
  newest_exists cs c h =
      let group = with_name dec c.0 cs in
      head?_member (sort_by_version group) c
        (elem-sort_by dec_capability newer c group ∙ ground (arith, elem-with_name c.0 c cs))

  pub newest_complete :
      (cs : List (Capability Name)) (c : Capability Name) → IsHighest cs c → newest c.0 cs ≡ some c
  newest_complete cs c h =
      let (b, e) = newest_exists cs c h.0 in
      let (named, (member, above)) = newest_sound cs c.0 b e in
      let low : b.1 ≤ c.1 = h.1 b.1 (ground arith) in
      let high : c.1 ≤ b.1 = above c.1 (ground arith) in ground arith
