-- ===== src/Negotiation/Agreement.antt =====
-- `_select_capabilities` against what it promises, and the same on both sides of a connection.
use trinity.Prelude.{
  ℕ, ◌≤◌, ◌≡◌, ◌↔◌, ◌∙◌, refl, sym, ap, Bool, true, false, ◌&&◌, some, List, [], ◌∷◌, elem,
  Distinct, inl, inr, arith, Bool-cases,
}
use trinity.Prelude.Exec.{ok}
use trinity.Prelude.Sorting.{
  TotalOrder, sort_by, IsSorted, elem-sort_by, sort_by-Distinct, sort_by-IsSorted, sorted_unique,
}
use trinity.Negotiation.Capabilities.{
  Capability, keys, intersection, by_name, highest_of_each, select_capabilities,
}
use trinity.Negotiation.Groups.{names, groups, groups-Distinct, elem-keys-groups}
use trinity.Negotiation.Newest.{
  dec_capability, newest, IsHighest, newest_exists, newest_sound, newest_complete,
}
use trinity.Negotiation.Selection.{
  newest_each, AllNamed, AllNamed-elem, elem-names, names-elem, first_of_each_lem, elem-newest_each,
  newest_each-elem, names-newest_each,
}

module _ {A : Type 0} (dec : Discrete A) where
  pub elem-intersection :
      (a : A) (xs ys : List A)
      → elem dec a (intersection dec xs ys) ≡ (elem dec a xs && elem dec a ys)
  elem-intersection a [] ys = refl
  elem-intersection a (x ∷ xs) ys = ground (arith, elem-intersection a xs ys)

same_truth : (a b : Bool) → (a ≡ true → b ≡ true) → (b ≡ true → a ≡ true) → a ≡ b
same_truth true b h k = sym (h refl)
same_truth false b h k = elim (Bool-cases b) [
  | inl e ↦ absurd (ground (arith, k e))
  | inr e ↦ sym e
]

pub and_comm : (a b : Bool) → (a && b) ≡ (b && a)
and_comm a b = ground arith

module _ {Name : Type 0} (dec : Discrete Name) (order : TotalOrder Name) where
  abbrev sorted_shared : List (Capability Name) → List (Capability Name)
  sorted_shared shared = sort_by (by_name dec order) shared

  abbrev sorted_names : List (Capability Name) → List Name
  sorted_names shared = sort_by order.before (keys (groups dec (sorted_shared shared)))

  abbrev chosen : List (Capability Name) → List (Capability Name)
  chosen shared = newest_each dec (sorted_shared shared) (sorted_names shared)

  elem-sorted_names :
      (shared : List (Capability Name)) (n : Name)
      → elem dec n (sorted_names shared) ≡ elem dec n (names (sorted_shared shared))
  elem-sorted_names shared n =
      elem-sort_by dec order.before n (keys (groups dec (sorted_shared shared)))
      ∙ elem-keys-groups dec (sorted_shared shared) n

  sorted_names-AllNamed :
      (shared : List (Capability Name)) → AllNamed dec (sorted_shared shared) (sorted_names shared)
  sorted_names-AllNamed shared =
      AllNamed-elem dec (sorted_shared shared) (sorted_names shared)
        (λ n h. sym (elem-sorted_names shared n) ∙ h)

  sorted_names-Distinct : (shared : List (Capability Name)) → Distinct dec (sorted_names shared)
  sorted_names-Distinct shared =
      sort_by-Distinct dec order.before (keys (groups dec (sorted_shared shared)))
        (groups-Distinct dec (sorted_shared shared))

  sorted_names-IsSorted :
      (shared : List (Capability Name)) → IsSorted order.before (sorted_names shared)
  sorted_names-IsSorted shared =
      sort_by-IsSorted order.before order.before_trans order.before_total
        (keys (groups dec (sorted_shared shared)))

  pub highest_of_each-chosen :
      (shared : List (Capability Name)) → highest_of_each dec order shared ≡ ok (chosen shared)
  unfolding highest_of_each
  highest_of_each-chosen shared =
      first_of_each_lem dec (sorted_shared shared) (sorted_names shared)
        (sorted_names-AllNamed shared)

  elem-sorted_shared :
      (shared : List (Capability Name)) (c : Capability Name)
      → elem (dec_capability dec) c (sorted_shared shared) ≡ elem (dec_capability dec) c shared
  elem-sorted_shared shared c = elem-sort_by (dec_capability dec) (by_name dec order) c shared

  IsHighest-sorted :
      (shared : List (Capability Name)) (c : Capability Name)
      → IsHighest dec (sorted_shared shared) c ↔ IsHighest dec shared c
  IsHighest-sorted shared c = (
    λ h. (
      sym (elem-sorted_shared shared c) ∙ h.0,
      λ v k. h.1 v (elem-sorted_shared shared (c.0, v) ∙ k),
    ),
    λ h. (
      elem-sorted_shared shared c ∙ h.0,
      λ v k. h.1 v (sym (elem-sorted_shared shared (c.0, v)) ∙ k),
    ),
  )

  elem-chosen :
      (shared : List (Capability Name)) (c : Capability Name)
      → (elem (dec_capability dec) c (chosen shared) ≡ true) ↔ IsHighest dec shared c
  elem-chosen shared c = (
    λ h.
        (IsHighest-sorted shared c).0
          (elem-newest_each dec (sorted_shared shared) (sorted_names shared) c h).1,
    λ h.
        let h' = (IsHighest-sorted shared c).1 h in
        newest_each-elem dec (sorted_shared shared) (sorted_names shared) c
          (elem-sorted_names shared c.0 ∙ elem-names dec (sorted_shared shared) c h'.0) h',
  )

  -- `c` is the highest version of its name that both sides have.
  abbrev pub IsAgreed : List (Capability Name) → List (Capability Name) → Capability Name → Type 0
  IsAgreed remote local c =
      (elem (dec_capability dec) c remote ≡ true)
      × (elem (dec_capability dec) c local ≡ true)
      × ((v : ℕ)
          → elem (dec_capability dec) (c.0, v) remote ≡ true
          → elem (dec_capability dec) (c.0, v) local ≡ true
          → v ≤ c.1)

  IsHighest-IsAgreed :
      (remote local : List (Capability Name)) (c : Capability Name)
      → IsHighest dec (intersection (dec_capability dec) local remote) c ↔ IsAgreed remote local c
  IsHighest-IsAgreed remote local c =
      let meets = elem-intersection (dec_capability dec) in
      (
        λ h.
            let both = sym (meets c local remote) ∙ h.0 in
            (
              ground arith,
              ground arith,
              λ v p q. h.1 v (meets (c.0, v) local remote ∙ ground arith),
            ),
        λ h. (
          meets c local remote ∙ ground arith,
          λ v p.
              let both = sym (meets (c.0, v) local remote) ∙ p in
              h.2 v (ground arith) (ground arith),
        ),
      )

  -- select_capabilities does not raise, whatever two peers announce: it selects exactly the
  -- capabilities that both have and of which neither shares a higher version, one for each shared
  -- name, in the order of the names.
  pub select_capabilities_lem :
      (remote local : List (Capability Name))
      → (selected : List (Capability Name)) × (select_capabilities dec order remote local
          ≡ ok selected)
        × IsSorted order.before (names selected)
        × Distinct dec (names selected)
        × ((c : Capability Name)
            → (elem (dec_capability dec) c selected ≡ true) ↔ IsAgreed remote local c)
  unfolding select_capabilities
  select_capabilities_lem remote local =
      let shared = intersection (dec_capability dec) local remote in
      let named =
        names-newest_each dec (sorted_shared shared) (sorted_names shared)
          (sorted_names-AllNamed shared) in
      (
        chosen shared,
        highest_of_each-chosen shared,
        rw named (sorted_names-IsSorted shared),
        rw named (sorted_names-Distinct shared),
        λ c. (
          λ h. (IsHighest-IsAgreed remote local c).0 ((elem-chosen shared c).0 h),
          λ h. (elem-chosen shared c).1 ((IsHighest-IsAgreed remote local c).1 h),
        ),
      )

  -- Two enumerations of one set.
  module _ (xs ys : List (Capability Name))
      (same : (c : Capability Name)
        → elem (dec_capability dec) c xs ≡ elem (dec_capability dec) c ys) where
    same_sorted :
        (c : Capability Name)
        → elem (dec_capability dec) c (sorted_shared xs)
          ≡ elem (dec_capability dec) c (sorted_shared ys)
    same_sorted c = elem-sorted_shared xs c ∙ same c ∙ sym (elem-sorted_shared ys c)

    IsHighest-same :
        (c : Capability Name)
        → IsHighest dec (sorted_shared xs) c
        → IsHighest dec (sorted_shared ys) c
    IsHighest-same c h = (sym (same_sorted c) ∙ h.0, λ v p. h.1 v (same_sorted (c.0, v) ∙ p))

    names_same :
        (n : Name) → elem dec n (sorted_names xs) ≡ true → elem dec n (sorted_names ys) ≡ true
    names_same n h =
        let (v, e) = names-elem dec (sorted_shared xs) n (sym (elem-sorted_names xs n) ∙ h) in
        elem-sorted_names ys n
        ∙ elem-names dec (sorted_shared ys) (n, v) (sym (same_sorted (n, v)) ∙ e)

    newest_each_same :
        (ns : List Name)
        → AllNamed dec (sorted_shared xs) ns
        → newest_each dec (sorted_shared xs) ns ≡ newest_each dec (sorted_shared ys) ns
    newest_each_same [] h = refl
    newest_each_same (n ∷ ns) h =
        let (v, e) = names-elem dec (sorted_shared xs) n h.0 in
        let (b, found) = newest_exists dec (sorted_shared xs) (n, v) e in
        let (named, highest) = newest_sound dec (sorted_shared xs) n b found in
        let found' : newest dec n (sorted_shared ys) ≡ some b =
          ap (λ k. newest dec k (sorted_shared ys)) named
          ∙ newest_complete dec (sorted_shared ys) b (IsHighest-same b highest) in
        rw (found, found') (ap (◌∷◌ b) (newest_each_same ns h.1))

  chosen_same :
      (xs ys : List (Capability Name))
      → ((c : Capability Name) → elem (dec_capability dec) c xs ≡ elem (dec_capability dec) c ys)
      → chosen xs ≡ chosen ys
  chosen_same xs ys same =
      let one_way = names_same xs ys same in
      let other_way = names_same ys xs (λ c. sym (same c)) in
      let one_order : sorted_names xs ≡ sorted_names ys =
        sorted_unique dec order.before order.before_antisym (sorted_names xs) (sorted_names ys)
          (sorted_names-IsSorted xs) (sorted_names-IsSorted ys) (sorted_names-Distinct xs)
          (sorted_names-Distinct ys)
          (λ n.
            same_truth (elem dec n (sorted_names xs)) (elem dec n (sorted_names ys)) (one_way n)
              (other_way n)) in
      newest_each_same xs ys same (sorted_names xs) (sorted_names-AllNamed xs)
      ∙ ap (newest_each dec (sorted_shared ys)) one_order

  -- Two peers that announce their capabilities to each other select the same ones in the same
  -- order.
  pub select_capabilities_comm :
      (remote local : List (Capability Name))
      → select_capabilities dec order remote local ≡ select_capabilities dec order local remote
  unfolding select_capabilities
  select_capabilities_comm remote local =
      let xs = intersection (dec_capability dec) local remote in
      let ys = intersection (dec_capability dec) remote local in
      let same = λ (c : Capability Name).
        elem-intersection (dec_capability dec) c local remote
        ∙ and_comm (elem (dec_capability dec) c local) (elem (dec_capability dec) c remote)
        ∙ sym (elem-intersection (dec_capability dec) c remote local) in
      highest_of_each-chosen xs ∙ ap ok (chosen_same xs ys same) ∙ sym (highest_of_each-chosen ys)
