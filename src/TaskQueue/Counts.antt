-- ===== src/TaskQueue/Counts.antt =====
-- How often a task stands in lists, and in the batches of a dictionary.
use trinity.Prelude.{
  ℕ, zero, suc, ◌+◌, ◌<◌, ◌≤◌, ◌≡◌, ◌∙◌, refl, ap, Bool, true, false, ◌&&◌, not, none, some, List,
  [], ◌∷◌, ◌++◌, elem, remove, length, length-remove, elem-remove, remove-Distinct, Distinct, take,
  drop, ite, arith, ℕ_discrete, inl, inr, List-cases, elem_head, if◌then◌else◌,
}
use trinity.Prelude.Dict
use trinity.Prelude.Dict.{Dict}
use trinity.Prelude.Sorting.{insert_sorted}
use trinity.Preparation.Completion.{difference, is_nil}
use trinity.TaskQueue.Queue.{members}

module _ {T : Type 0} (dec : Discrete T) where
  abbrev pub count : T → List T → ℕ
  count t [] = 0
  count t (x ∷ xs) = ite (dec t x) (suc (count t xs)) (count t xs)

  abbrev pub count_all : T → Dict ℕ (List T) → ℕ
  count_all t [] = 0
  count_all t (e ∷ d) = count t e.1 + count_all t d

  -- One for a member, and nothing for what is none.
  abbrev pub once : T → List T → ℕ
  once t xs = if elem dec t xs then 1 else 0

  pub count-Distinct : (t : T) (xs : List T) → Distinct dec xs → count t xs ≡ once t xs
  count-Distinct t [] d = refl
  count-Distinct t (x ∷ xs) d = ground (arith, count-Distinct t xs)

  pub count-insert :
      (le : T → T → Bool) (t x : T) (xs : List T)
      → count t (insert_sorted le x xs) ≡ count t (x ∷ xs)
  count-insert le t x [] = refl
  count-insert le t x (y ∷ ys) = ground (arith, count-insert le t x ys)

  pub count-append : (t : T) (xs ys : List T) → count t (xs ++ ys) ≡ count t xs + count t ys
  count-append t [] ys = omega arith
  count-append t (x ∷ xs) ys = ground (arith, count-append t xs ys)

  pub count-take-drop :
      (t : T) (n : ℕ) (xs : List T) → count t (take n xs) + count t (drop n xs) ≡ count t xs
  count-take-drop t zero xs = omega arith
  count-take-drop t (suc n) [] = refl
  count-take-drop t (suc n) (x ∷ xs) = ground (arith, count-take-drop t n xs)

  pub elem-difference :
      (t : T) (xs ys : List T)
      → elem dec t (difference dec xs ys) ≡ (elem dec t xs && not (elem dec t ys))
  elem-difference t [] ys = refl
  elem-difference t (x ∷ xs) ys = ground (arith, elem-difference t xs ys)

  pub difference-Distinct : (xs ys : List T) → Distinct dec xs → Distinct dec (difference dec xs ys)
  difference-Distinct [] ys d = tt
  difference-Distinct (x ∷ xs) ys d =
      ground (arith, difference-Distinct xs ys, elem-difference x xs ys)

  pub length-difference : (xs ys : List T) → length (difference dec xs ys) ≤ length xs
  length-difference [] ys = omega arith
  length-difference (x ∷ xs) ys = ground (arith, length-difference xs ys)

  pub elem-members : (t : T) (xs : List T) → elem dec t (members dec xs) ≡ elem dec t xs
  elem-members t [] = refl
  elem-members t (x ∷ xs) = ground (arith, elem-members t xs, elem-members x xs)

  pub members-Distinct : (xs : List T) → Distinct dec (members dec xs)
  members-Distinct [] = tt
  members-Distinct (x ∷ xs) = ground (arith, members-Distinct xs)

  -- No more entries than different members to stand for.
  pub length_of_counts :
      (xs ys : List T)
      → Distinct dec ys
      → ((t : T) → count t xs ≤ once t ys)
      → length xs ≤ length ys
  length_of_counts [] ys d h = omega arith
  length_of_counts (x ∷ xs) ys d h =
      let member : elem dec x ys ≡ true = ground (arith, h x) in
      let rest =
        length_of_counts xs (remove dec x ys) (remove-Distinct dec x ys d)
          (λ t. ground (arith, h t, elem-remove dec x t ys d)) in
      omega (arith, length-remove dec x ys member)

  pub count-pos : (t : T) (xs : List T) → 0 < count t xs → elem dec t xs ≡ true
  count-pos t [] h = ground arith
  count-pos t (x ∷ xs) h = ground (arith, count-pos t xs)

  pub elem-count : (t : T) (xs : List T) → elem dec t xs ≡ true → 0 < count t xs
  elem-count t [] h = ground arith
  elem-count t (x ∷ xs) h = ground (arith, elem-count t xs)

  -- A batch is counted once in a dictionary whose keys are different.
  abbrev pub keys : Dict ℕ (List T) → List ℕ
  keys [] = []
  keys (e ∷ d) = e.0 ∷ keys d

  pub count_all-put :
      (t : T) (d : Dict ℕ (List T)) (k : ℕ) (v : List T)
      → Dict.get ℕ_discrete d k ≡ none
      → count_all t (Dict.put ℕ_discrete d k v) ≡ count_all t d + count t v
  unfolding Dict.get Dict.put
  count_all-put t [] k v h = omega arith
  count_all-put t (e ∷ d) k v h = ground (arith, count_all-put t d k v)

  get-none :
      (d : Dict ℕ (List T)) (k : ℕ)
      → elem ℕ_discrete k (keys d) ≡ false
      → Dict.get ℕ_discrete d k ≡ none
  unfolding Dict.get
  get-none [] k h = refl
  get-none (e ∷ d) k h = ground (arith, get-none d k)

  count_all-absent :
      (t : T) (d : Dict ℕ (List T)) (k : ℕ)
      → elem ℕ_discrete k (keys d) ≡ false
      → count_all t (Dict.del ℕ_discrete d k) ≡ count_all t d
  unfolding Dict.del
  count_all-absent t [] k h = refl
  count_all-absent t (e ∷ d) k h = ground (arith, count_all-absent t d k)

  pub count_all-del :
      (t : T) (d : Dict ℕ (List T)) (k : ℕ) (v : List T)
      → Distinct ℕ_discrete (keys d)
      → Dict.get ℕ_discrete d k ≡ some v
      → count_all t (Dict.del ℕ_discrete d k) + count t v ≡ count_all t d
  unfolding Dict.get Dict.del
  count_all-del t [] k v u h = ground arith
  count_all-del t (e ∷ d) k v u h = elim (ℕ_discrete k e.0) [
    | yes p ↦ ground (arith, count_all-absent t d k)
    | no n ↦ ground (arith, count_all-del t d k v)
  ]

module _ {K : Type 0} (dec : Discrete K) where
  -- Nothing of the first list is missing in the second.
  abbrev pub Within : List K → List K → Type 0
  Within ks expected = (k : K) → elem dec k ks ≡ true → elem dec k expected ≡ true

  pub nil_if_Within :
      (ks expected : List K) → Within ks expected → is_nil (difference dec ks expected) ≡ true
  nil_if_Within ks expected h = elim (List-cases (difference dec ks expected)) [
    | inl e ↦ rw e refl
    | inr (x, xs, e) ↦
        let here : elem dec x (difference dec ks expected) ≡ true =
          ap (elem dec x) e ∙ elem_head dec x xs in
        absurd (ground (arith, elem-difference dec x ks expected, h x))
  ]

  pub Within-if_nil :
      (ks expected : List K) → is_nil (difference dec ks expected) ≡ true → Within ks expected
  Within-if_nil ks expected e k h = elim (List-cases (difference dec ks expected)) [
    | inl n ↦
        let none_left : elem dec k (difference dec ks expected) ≡ false = rw n refl in
        ground (arith, elem-difference dec k ks expected)
    | inr (x, xs, n) ↦ absurd (ground arith)
  ]
