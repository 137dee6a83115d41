-- ===== src/Prelude/Sorting.antt =====
-- Python's `sorted`, which is stable, over a test of order.
use mathlib.Core.Path.{◌≡◌, refl, ◌∙◌}
use mathlib.Core.Logic.{inl, inr}
use mathlib.Core.Bool.{Bool, true, false}
use mathlib.Core.List.{List, [], ◌∷◌}
use native.Mathlib.Omega.{arith}
use trinity.Prelude.Tests.{if◌then◌else◌, Bool-cases}
use trinity.Prelude.Members.{elem, Distinct}

-- An order that decides any two values, such as that of texts.
pub record TotalOrder (K : Type 0) : Type 0 where
  pub before : K → K → Bool
  pub before_total : (a b : K) → before a b ≡ false → before b a ≡ true
  pub before_trans : (a b c : K) → before a b ≡ true → before b c ≡ true → before a c ≡ true
  pub before_antisym : (a b : K) → before a b ≡ true → before b a ≡ true → a ≡ b

module _ {A : Type 0} (le : A → A → Bool) where
  abbrev pub insert_sorted : A → List A → List A
  insert_sorted x [] = x ∷ []
  insert_sorted x (y ∷ ys) =
      let later = y ∷ insert_sorted x ys in if le x y then x ∷ y ∷ ys else later

  abbrev pub sort_by : List A → List A
  sort_by [] = []
  sort_by (x ∷ xs) = insert_sorted x (sort_by xs)

  abbrev pub AllAfter : A → List A → Type 0
  AllAfter x [] = Unit
  AllAfter x (y ∷ ys) = (le x y ≡ true) × AllAfter x ys

  abbrev pub IsSorted : List A → Type 0
  IsSorted [] = Unit
  IsSorted (x ∷ xs) = AllAfter x xs × IsSorted xs

module _ {A : Type 0} (dec : Discrete A) (le : A → A → Bool) where
  elem-insert_sorted :
      (a x : A) (ys : List A) → elem dec a (insert_sorted le x ys) ≡ elem dec a (x ∷ ys)
  elem-insert_sorted a x [] = refl
  elem-insert_sorted a x (y ∷ ys) = ground (arith, elem-insert_sorted a x ys)

  pub elem-sort_by : (a : A) (xs : List A) → elem dec a (sort_by le xs) ≡ elem dec a xs
  elem-sort_by a [] = refl
  elem-sort_by a (x ∷ xs) =
      ground (arith, elem-insert_sorted a x (sort_by le xs), elem-sort_by a xs)

  insert_sorted-Distinct :
      (x : A) (ys : List A)
      → elem dec x ys ≡ false
      → Distinct dec ys
      → Distinct dec (insert_sorted le x ys)
  insert_sorted-Distinct x [] h d = (refl, tt)
  insert_sorted-Distinct x (y ∷ ys) h d =
      ground (arith, insert_sorted-Distinct x ys, elem-insert_sorted y x ys)

  pub sort_by-Distinct : (xs : List A) → Distinct dec xs → Distinct dec (sort_by le xs)
  sort_by-Distinct [] d = tt
  sort_by-Distinct (x ∷ xs) d =
      insert_sorted-Distinct x (sort_by le xs) (elem-sort_by x xs ∙ d.0) (sort_by-Distinct xs d.1)

  -- What every member of a sorted list is after.
  pub AllAfter-elem :
      (x a : A) (ys : List A) → AllAfter le x ys → elem dec a ys ≡ true → le x a ≡ true
  AllAfter-elem x a [] p h = absurd (ground arith)
  AllAfter-elem x a (y ∷ ys) p h = ground (arith, AllAfter-elem x a ys)

module _ {A : Type 0} (le : A → A → Bool) where
  module _ (trans : (a b c : A) → le a b ≡ true → le b c ≡ true → le a c ≡ true) where
    AllAfter-trans : (x y : A) (ys : List A) → le x y ≡ true → AllAfter le y ys → AllAfter le x ys
    AllAfter-trans x y [] h p = tt
    AllAfter-trans x y (z ∷ zs) h p = (trans x y z h p.0, AllAfter-trans x y zs h p.1)

    AllAfter-insert :
        (x y : A) (ys : List A)
        → le x y ≡ true
        → AllAfter le x ys
        → AllAfter le x (insert_sorted le y ys)
    AllAfter-insert x y [] h p = (h, tt)
    AllAfter-insert x y (z ∷ zs) h p = elim (Bool-cases (le y z)) [
      | inl e ↦ rw e (h, p)
      | inr e ↦ rw e (p.0, AllAfter-insert x y zs h p.1)
    ]

    module _ (total : (a b : A) → le a b ≡ false → le b a ≡ true) where
      pub insert-IsSorted :
          (x : A) (ys : List A) → IsSorted le ys → IsSorted le (insert_sorted le x ys)
      insert-IsSorted x [] s = (tt, tt)
      insert-IsSorted x (y ∷ ys) s = elim (Bool-cases (le x y)) [
        | inl e ↦ rw e ((e, AllAfter-trans x y ys e s.0), s)
        | inr e ↦ rw e (AllAfter-insert y x ys (total x y e) s.0, insert-IsSorted x ys s.1)
      ]

      pub sort_by-IsSorted : (xs : List A) → IsSorted le (sort_by le xs)
      sort_by-IsSorted [] = tt
      sort_by-IsSorted (x ∷ xs) = insert-IsSorted x (sort_by le xs) (sort_by-IsSorted xs)

-- A sorted list without repetitions is determined by its members.
module _ {A : Type 0} (dec : Discrete A) (le : A → A → Bool) where
  elem_tail :
      (x y : A) (xs ys : List A)
      → x ≡ y
      → elem dec x xs ≡ false
      → elem dec y ys ≡ false
      → ((a : A) → elem dec a (x ∷ xs) ≡ elem dec a (y ∷ ys))
      → (a : A) → elem dec a xs ≡ elem dec a ys
  elem_tail x y xs ys same hx hy h a = ground (arith, h a)

  pub sorted_unique :
      ((a b : A) → le a b ≡ true → le b a ≡ true → a ≡ b)
      → (xs ys : List A) → IsSorted le xs
      → IsSorted le ys
      → Distinct dec xs
      → Distinct dec ys
      → ((a : A) → elem dec a xs ≡ elem dec a ys)
      → xs ≡ ys
  sorted_unique antisym [] [] s t d e h = refl
  sorted_unique antisym [] (y ∷ ys) s t d e h = absurd (ground (arith, h y))
  sorted_unique antisym (x ∷ xs) [] s t d e h = absurd (ground (arith, h x))
  sorted_unique antisym (x ∷ xs) (y ∷ ys) s t d e h =
      let same : x ≡ y = elim (dec x y) [
        | yes p ↦ p
        | no n ↦
            antisym x y (AllAfter-elem dec le x y xs s.0 (ground (arith, h y)))
              (AllAfter-elem dec le y x ys t.0 (ground (arith, h x)))
      ] in
      let tails =
        sorted_unique antisym xs ys s.1 t.1 d.1 e.1 (elem_tail x y xs ys same d.0 e.0 h) in
      cc
