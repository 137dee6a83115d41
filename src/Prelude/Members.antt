-- ===== src/Prelude/Members.antt =====
-- Lists as Python's deques, tuples and sets: membership as a test, removal and distinctness.
use Prim.Native.Nat.{◌+◌}
use mathlib.Core.Path.{◌≡◌, refl, ap}
use mathlib.Core.Logic.{ite, ◌≢◌}
use mathlib.Core.Bool.{Bool, true, false, ◌||◌}
use mathlib.Core.List.{List, [], ◌∷◌, ◌++◌}
use native.Mathlib.Omega.{arith}
use trinity.Prelude.Lists.{length}

module _ {A : Type 0} (dec : Discrete A) where
  abbrev pub elem : A → List A → Bool
  elem a [] = false
  elem a (x ∷ xs) = ite (dec a x) true (elem a xs)

  -- Removes the first occurrence.
  abbrev pub remove : A → List A → List A
  remove a [] = []
  remove a (x ∷ xs) = ite (dec a x) xs (x ∷ remove a xs)

  -- Removes every occurrence.
  abbrev pub without : A → List A → List A
  without a [] = []
  without a (x ∷ xs) = ite (dec a x) (without a xs) (x ∷ without a xs)

  abbrev pub Distinct : List A → Type 0
  Distinct [] = Unit
  Distinct (x ∷ xs) = (elem x xs ≡ false) × Distinct xs

  pub elem-append : (a : A) (xs ys : List A) → elem a (xs ++ ys) ≡ (elem a xs || elem a ys)
  elem-append a [] ys = refl
  elem-append a (x ∷ xs) ys = ground (arith, elem-append a xs ys)

  pub elem-append_end :
      (a b : A) (xs : List A) → elem a (xs ++ b ∷ []) ≡ ite (dec a b) true (elem a xs)
  elem-append_end a b [] = refl
  elem-append_end a b (x ∷ xs) = ground (arith, elem-append_end a b xs)

  pub append_end-Distinct :
      (a : A) (xs : List A) → Distinct xs → elem a xs ≡ false → Distinct (xs ++ a ∷ [])
  append_end-Distinct a [] d h = (refl, tt)
  append_end-Distinct a (x ∷ xs) d h =
      ground (arith, append_end-Distinct a xs, elem-append_end x a xs)

  pub elem-without :
      (a b : A) (xs : List A) → elem b (without a xs) ≡ ite (dec b a) false (elem b xs)
  elem-without a b [] = ground arith
  elem-without a b (x ∷ xs) = ground (arith, elem-without a b xs)

  pub without-Distinct : (a : A) (xs : List A) → Distinct xs → Distinct (without a xs)
  without-Distinct a [] d = tt
  without-Distinct a (x ∷ xs) d = ground (arith, without-Distinct a xs, elem-without a x xs)

  pub remove_absent : (a : A) (xs : List A) → elem a xs ≡ false → remove a xs ≡ xs
  remove_absent a [] h = refl
  remove_absent a (x ∷ xs) h = ground (arith, remove_absent a xs)

  pub length-remove :
      (a : A) (xs : List A) → elem a xs ≡ true → length (remove a xs) + 1 ≡ length xs
  length-remove a [] h = ground arith
  length-remove a (x ∷ xs) h = ground (arith, length-remove a xs)

  pub elem-remove :
      (a b : A) (xs : List A) → Distinct xs → elem b (remove a xs) ≡ ite (dec b a) false (elem b xs)
  elem-remove a b [] d = ground arith
  elem-remove a b (x ∷ xs) d = ground (arith, elem-remove a b xs)

  pub remove-Distinct : (a : A) (xs : List A) → Distinct xs → Distinct (remove a xs)
  remove-Distinct a [] d = tt
  remove-Distinct a (x ∷ xs) d = ground (arith, remove-Distinct a xs, elem-remove a x xs)

  pub elem_rest : (a x : A) (xs : List A) → a ≢ x → elem a (x ∷ xs) ≡ true → elem a xs ≡ true
  elem_rest a x xs n h = ground arith

  pub elem_head : (a : A) (xs : List A) → elem a (a ∷ xs) ≡ true
  elem_head a xs = ground arith

  pub elem_first : (a x : A) (xs : List A) → a ≡ x → elem a (x ∷ xs) ≡ true
  elem_first a x xs e = ground arith

  pub elem_more : (a x : A) (xs : List A) → elem a xs ≡ true → elem a (x ∷ xs) ≡ true
  elem_more a x xs h = ground arith

  abbrev pub repeats : List A → Bool
  repeats [] = false
  repeats (x ∷ xs) = elem x xs || repeats xs

  pub repeats-Distinct : (xs : List A) → repeats xs ≡ false → Distinct xs
  repeats-Distinct [] h = tt
  repeats-Distinct (x ∷ xs) h = (ground arith, repeats-Distinct xs (ground arith))

unfoldable pub pair_discrete : {A B : Type 0} → Discrete A → Discrete B → Discrete (A × B)
pair_discrete dec_a dec_b p q = elim (dec_a p.0 q.0) [
  | yes a ↦ elim (dec_b p.1 q.1) [
    | yes b ↦ yes (λ i. (a i, b i))
    | no n ↦ no (λ r. n (ap (λ x. x.1) r))
  ]
  | no n ↦ no (λ r. n (ap (λ x. x.0) r))
]
