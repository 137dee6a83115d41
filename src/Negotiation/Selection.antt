-- ===== src/Negotiation/Selection.antt =====
-- What `_select_capabilities` collects: the newest version of each name.
use trinity.Prelude.{
  ℕ, ◌≡◌, ◌∙◌, refl, sym, ap, true, some, List, [], ◌∷◌, elem, inl, inr, arith, Option-cases,
}
use trinity.Prelude.Exec.{ok}
use trinity.Prelude.Sorting.{elem-sort_by}
use trinity.Negotiation.Capabilities.{Capability, newer, sort_by_version, first_of_each}
use trinity.Negotiation.Groups.{names, with_name, groups, get-groups}
use trinity.Negotiation.Newest.{
  cons?, dec_capability, newest, IsHighest, elem-with_name, newest_sound, head?_member,
  newest_exists, newest_complete,
}

module _ {Name : Type 0} (dec : Discrete Name) where
  pub elem-names :
      (cs : List (Capability Name)) (c : Capability Name)
      → elem (dec_capability dec) c cs ≡ true
      → elem dec c.0 (names cs) ≡ true
  elem-names [] c h = ground arith
  elem-names (a ∷ more) c h = ground (arith, elem-names more c)

  pub names-elem :
      (cs : List (Capability Name)) (n : Name)
      → elem dec n (names cs) ≡ true
      → (v : ℕ) × (elem (dec_capability dec) (n, v) cs ≡ true)
  names-elem [] n h = absurd (ground arith)
  names-elem (a ∷ more) n h = elim (dec n a.0) [
    | yes p ↦ (a.1, ground arith)
    | no q ↦ let (v, e) = names-elem more n (ground arith) in (v, ground arith)
  ]

  -- The newest version of every one of `ns`.
  abbrev pub newest_each : List (Capability Name) → List Name → List (Capability Name)
  newest_each cs [] = []
  newest_each cs (n ∷ ns) = cons? (newest dec n cs) (newest_each cs ns)

  abbrev pub AllNamed : List (Capability Name) → List Name → Type 0
  AllNamed cs [] = Unit
  AllNamed cs (n ∷ ns) = (elem dec n (names cs) ≡ true) × AllNamed cs ns

  pub AllNamed-elem :
      (cs : List (Capability Name)) (ns : List Name)
      → ((n : Name) → elem dec n ns ≡ true → elem dec n (names cs) ≡ true)
      → AllNamed cs ns
  AllNamed-elem cs [] h = tt
  AllNamed-elem cs (n ∷ ns) h =
      (h n (ground arith), AllNamed-elem cs ns (λ m k. h m (ground arith)))

  pub first_of_each_lem :
      (cs : List (Capability Name)) (ns : List Name)
      → AllNamed cs ns
      → first_of_each dec (groups dec cs) ns ≡ ok (newest_each cs ns)
  unfolding first_of_each newest
  first_of_each_lem cs [] h = refl
  first_of_each_lem cs (n ∷ ns) h =
      let (v, e) = names-elem cs n h.0 in
      let group = with_name dec n cs in
      let member : elem (dec_capability dec) (n, v) group ≡ true =
        ground (arith, elem-with_name dec n (n, v) cs) in
      let (b, first) =
        head?_member dec (sort_by_version group) (n, v)
          (elem-sort_by (dec_capability dec) newer (n, v) group ∙ member) in
      ground (arith, get-groups dec cs n h.0, first_of_each_lem cs ns h.1)

  -- A list of the newest versions has exactly the highest ones, under different names.
  pub elem-newest_each :
      (cs : List (Capability Name)) (ns : List Name) (c : Capability Name)
      → elem (dec_capability dec) c (newest_each cs ns) ≡ true
      → (elem dec c.0 ns ≡ true) × IsHighest dec cs c
  elem-newest_each cs [] c h = absurd (ground arith)
  elem-newest_each cs (n ∷ ns) c h = elim (Option-cases (newest dec n cs)) [
    | inl e ↦ let (k, p) = elem-newest_each cs ns c (rw e at h) in (ground arith, p)
    | inr (b, e) ↦
        let (same, highest) = newest_sound dec cs n b e in
        elim (dec_capability dec c b) [
          | yes p ↦ rw p (ground arith, highest)
          | no q ↦
              let (k, p) = elem-newest_each cs ns c (ground (arith, rw e at h)) in (ground arith, p)
        ]
  ]

  pub newest_each-elem :
      (cs : List (Capability Name)) (ns : List Name) (c : Capability Name)
      → elem dec c.0 ns ≡ true
      → IsHighest dec cs c
      → elem (dec_capability dec) c (newest_each cs ns) ≡ true
  newest_each-elem cs [] c h p = absurd (ground arith)
  newest_each-elem cs (n ∷ ns) c h p = elim (dec c.0 n) [
    | yes same ↦
        let found : newest dec n cs ≡ some c =
          ap (λ k. newest dec k cs) (sym same) ∙ newest_complete dec cs c p in
        rw found (ground arith)
    | no other ↦
        let rest = newest_each-elem cs ns c (ground arith) p in
        elim (Option-cases (newest dec n cs)) [
          | inl e ↦ rw e rest
          | inr (b, e) ↦ rw e (ground arith)
        ]
  ]

  pub names-newest_each :
      (cs : List (Capability Name)) (ns : List Name)
      → AllNamed cs ns
      → names (newest_each cs ns) ≡ ns
  names-newest_each cs [] h = refl
  names-newest_each cs (n ∷ ns) h =
      let (v, e) = names-elem cs n h.0 in
      let (b, found) = newest_exists dec cs (n, v) e in
      let (same, highest) = newest_sound dec cs n b found in
      rw found (ground (arith, names-newest_each cs ns h.1))
