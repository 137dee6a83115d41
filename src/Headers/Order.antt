-- ===== src/Headers/Order.antt =====
-- Sorting and repetition in lists of numbers.
use trinity.Prelude.{
  ℕ, ◌<◌, ◌≡◌, refl, true, false, Bool, List, [], ◌∷◌, arith, elem, ℕ_discrete, Bool-cases, inl,
  inr,
}
use trinity.Headers.Response.{ordered, insert_in, sorted, has_repeated}

-- Every number is beyond the one before it.
abbrev pub Strict : Bool → List ℕ → Type 0
Strict reverse [] = Unit
Strict reverse (n ∷ []) = Unit
Strict false (n ∷ m ∷ ms) = (n < m) × Strict false (m ∷ ms)
Strict true (n ∷ m ∷ ms) = (m < n) × Strict true (m ∷ ms)

abbrev pub Ordered : Bool → List ℕ → Type 0
Ordered reverse [] = Unit
Ordered reverse (n ∷ []) = Unit
Ordered reverse (n ∷ m ∷ ms) = (ordered reverse n m ≡ true) × Ordered reverse (m ∷ ms)

total : (reverse : Bool) (a b : ℕ) → ordered reverse a b ≡ false → ordered reverse b a ≡ true
total false a b h = ground arith
total true a b h = ground arith

insert-Ordered :
    (reverse : Bool) (n : ℕ) (ms : List ℕ)
    → Ordered reverse ms
    → Ordered reverse (insert_in reverse n ms)
insert-Ordered reverse n [] o = tt
insert-Ordered reverse n (m ∷ []) o = elim (Bool-cases (ordered reverse n m)) [
  | inl e ↦ rw e (e, tt)
  | inr e ↦ rw e (total reverse n m e, tt)
]
insert-Ordered reverse n (m ∷ k ∷ ks) o = elim (Bool-cases (ordered reverse n m)) [
  | inl e ↦ rw e (e, o)
  | inr e ↦ elim (Bool-cases (ordered reverse n k)) [
    | inl e' ↦ rw (e, e') (total reverse n m e, (e', o.1))
    | inr e' ↦ let rest = insert-Ordered reverse n (k ∷ ks) o.1 in rw (e, e') (o.0, rw e' at rest)
  ]
]

pub sorted-Ordered : (reverse : Bool) (ns : List ℕ) → Ordered reverse (sorted reverse ns)
sorted-Ordered reverse [] = tt
sorted-Ordered reverse (n ∷ ns) =
    insert-Ordered reverse n (sorted reverse ns) (sorted-Ordered reverse ns)

pub Ordered-Strict :
    (reverse : Bool) (ns : List ℕ)
    → Ordered reverse ns
    → has_repeated ns ≡ false
    → Strict reverse ns
Ordered-Strict reverse [] o h = tt
Ordered-Strict reverse (n ∷ []) o h = tt
Ordered-Strict false (n ∷ m ∷ ms) o h =
    (ground arith, Ordered-Strict false (m ∷ ms) o.1 (ground arith))
Ordered-Strict true (n ∷ m ∷ ms) o h =
    (ground arith, Ordered-Strict true (m ∷ ms) o.1 (ground arith))

pub sorted_fixed : (reverse : Bool) (ns : List ℕ) → Strict reverse ns → sorted reverse ns ≡ ns
sorted_fixed reverse [] s = refl
sorted_fixed reverse (n ∷ []) s = refl
sorted_fixed false (n ∷ m ∷ ms) s =
    let less = s.0 in rw (sorted_fixed false (m ∷ ms) s.1) (ground arith)
sorted_fixed true (n ∷ m ∷ ms) s =
    let less = s.0 in rw (sorted_fixed true (m ∷ ms) s.1) (ground arith)

below_absent :
    (x m : ℕ) (ms : List ℕ) → x < m → Strict false (m ∷ ms) → elem ℕ_discrete x (m ∷ ms) ≡ false
below_absent x m [] less s = ground arith
below_absent x m (k ∷ ks) less s =
    let up = s.0 in let rest = below_absent x k ks (omega arith) s.1 in ground arith

above_absent :
    (x m : ℕ) (ms : List ℕ) → m < x → Strict true (m ∷ ms) → elem ℕ_discrete x (m ∷ ms) ≡ false
above_absent x m [] less s = ground arith
above_absent x m (k ∷ ks) less s =
    let down = s.0 in let rest = above_absent x k ks (omega arith) s.1 in ground arith

pub not_repeated : (reverse : Bool) (ns : List ℕ) → Strict reverse ns → has_repeated ns ≡ false
not_repeated reverse [] s = refl
not_repeated reverse (n ∷ []) s = refl
not_repeated false (n ∷ m ∷ ms) s =
    rw (below_absent n m ms s.0 s.1) (not_repeated false (m ∷ ms) s.1)
not_repeated true (n ∷ m ∷ ms) s = rw (above_absent n m ms s.0 s.1) (not_repeated true (m ∷ ms) s.1)
