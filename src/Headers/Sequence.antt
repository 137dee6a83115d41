-- ===== src/Headers/Sequence.antt =====
-- `sequence_builder`: an arithmetic sequence, cut off where it leaves the block numbers.
use native.Mathlib.Nat.{suc-mul}
use trinity.Prelude.{
  ℕ, zero, suc, ◌+◌, ◌-◌, ◌*◌, ◌/◌, ◌^◌, ◌≤◌, ◌<◌, ◌≡◌, ◌↔◌, ◌⊎◌, inl, inr, refl, sym, ap, ◌∙◌,
  Bool, true, false, List, [], ◌∷◌, arith, ltb, leb, if◌then◌else◌, elem, ℕ_discrete, Bool-cases,
}
use trinity.Prelude.Exec.{Result, ok, err, oversize_object}
use trinity.Prelude.Fallible.{pure, raise_if, ◌>>◌}
use trinity.Prelude.Int.{ℤ, pos, negsuc, ◌+ℤ◌, ◌-ℤ◌, int_laws, parts}

abbrev pub maximum_object_memory_bytes : ℕ
maximum_object_memory_bytes = 10000000

-- `UINT_256_MAX`
abbrev pub uint_256_max : ℕ
uint_256_max = 2 ^ 256 - 1

-- `range(start, start + step * count, step)` has `count` entries.
abbrev pub range : ℕ → ℤ → ℤ → List ℤ
range zero start step = []
range (suc count) start step = start ∷ range count (start +ℤ step) step

-- `0 <= number <= UINT_256_MAX`, where the bound is `most`.
abbrev pub within : ℕ → List ℤ → List ℕ
within most [] = []
within most (pos n ∷ zs) = let rest = within most zs in if leb n most then n ∷ rest else rest
within most (negsuc n ∷ zs) = within most zs

abbrev pub step_of : ℕ → Bool → ℤ
step_of skip reverse = if reverse then pos 0 -ℤ pos (skip + 1) else pos (skip + 1)

unfoldable pub sequence_builder : ℕ → ℕ → ℕ → Bool → Result (List ℕ)
sequence_builder start_number max_length skip reverse = do
  raise_if oversize_object (ltb (maximum_object_memory_bytes / 8) max_length)
  pure (within uint_256_max (range max_length (pos start_number) (step_of skip reverse)))

-- The entry `k` steps on.
abbrev steps : ℕ → ℤ → ℤ → ℤ
steps zero z step = z
steps (suc k) z step = steps k (z +ℤ step) step

abbrev Entry : ℕ → ℕ → ℤ → ℤ → ℕ → Type 0
Entry most count z step n = (k : ℕ) × (k < count) × (steps k z step ≡ pos n) × (n ≤ most)

elem-within :
    (most count : ℕ) (z step : ℤ) (n k : ℕ)
    → k < count
    → steps k z step ≡ pos n
    → n ≤ most
    → elem ℕ_discrete n (within most (range count z step)) ≡ true
elem-within most zero z step n k less at h = absurd (omega arith)
elem-within most (suc count) z step n zero less at h = rw at (ground arith)
elem-within most (suc count) z step n (suc k) less at h =
    later z _ (elem-within most count (z +ℤ step) step n k (omega arith) at h)
  where
    later :
        (x : ℤ) (ys : List ℤ)
        → elem ℕ_discrete n (within most ys) ≡ true
        → elem ℕ_discrete n (within most (x ∷ ys)) ≡ true
    later (pos m) ys inside = ground arith
    later (negsuc m) ys inside = inside

elem-Entry :
    (most count : ℕ) (z step : ℤ) (n : ℕ)
    → elem ℕ_discrete n (within most (range count z step)) ≡ true
    → Entry most count z step n
elem-Entry most zero z step n inside = cc
elem-Entry most (suc count) (negsuc m) step n inside =
    let (k, less, at, h) = elem-Entry most count (negsuc m +ℤ step) step n inside in
    (suc k, omega arith, at, h)
elem-Entry most (suc count) (pos m) step n inside = elim (ℕ_discrete n m) [
  | yes e ↦ elim (Bool-cases (leb m most)) [
    | inl fits ↦ (0, omega arith, ap pos (sym e), ground arith)
    | inr out ↦
        let (k, less, at, h) = elem-Entry most count (pos m +ℤ step) step n (ground arith) in
        (suc k, omega arith, at, h)
  ]
  | no ne ↦
      let (k, less, at, h) = elem-Entry most count (pos m +ℤ step) step n (ground arith) in
      (suc k, omega arith, at, h)
]

steps_up : (k s d : ℕ) → steps k (pos s) (pos d) ≡ pos (s + k * d)
steps_up zero s d = ap pos (omega arith)
steps_up (suc k) s d =
    let next : pos s +ℤ pos d ≡ pos (s + d) = omega int_laws in
    ap (λ z. steps k z (pos d)) next ∙ (steps_up k (s + d) d ∙ ap pos (omega (arith, suc-mul k d)))

steps_down : (k d : ℕ) (z : ℤ) → steps k z (pos 0 -ℤ pos d) ≡ z -ℤ pos (k * d)
steps_down zero d z = omega int_laws
steps_down (suc k) d z = steps_down k d (z +ℤ (pos 0 -ℤ pos d)) ∙ omega (int_laws, suc-mul k d)

-- Which numbers a request means: `k` steps from the start, up or down.
abbrev pub Meant : ℕ → ℕ → ℕ → Bool → ℕ → Type 0
Meant start count skip false n =
    (k : ℕ) × (k < count) × (n ≡ start + k * (skip + 1)) × (n ≤ uint_256_max)
Meant start count skip true n =
    (k : ℕ) × (k < count) × (n + k * (skip + 1) ≡ start) × (n ≤ uint_256_max)

Entry-Meant :
    (start count skip : ℕ) (reverse : Bool) (n : ℕ)
    → Entry uint_256_max count (pos start) (step_of skip reverse) n
      ↔ Meant start count skip reverse n
Entry-Meant start count skip false n = (
  (λ (k, less, at, h). (k, less, pos_inj (sym at ∙ steps_up k start (skip + 1)), h)),
  (λ (k, less, e, h). (k, less, steps_up k start (skip + 1) ∙ ap pos (sym e), h)),
)
  where
    pos_inj : {a b : ℕ} → pos a ≡ pos b → a ≡ b
    pos_inj e = cc
Entry-Meant start count skip true n = (
  (λ (k, less, at, h). (k, less, down k (sym at ∙ steps_down k (skip + 1) (pos start)), h)),
  (λ (k, less, e, h). (k, less, steps_down k (skip + 1) (pos start) ∙ up k e, h)),
)
  where
    down : (k : ℕ) → pos n ≡ pos start -ℤ pos (k * (skip + 1)) → n + k * (skip + 1) ≡ start
    down k e = omega (int_laws, parts e)

    up : (k : ℕ) → n + k * (skip + 1) ≡ start → pos start -ℤ pos (k * (skip + 1)) ≡ pos n
    up k e = omega int_laws

-- A request for more than 1250000 numbers, and no other, raises OversizeObject; any other yields the numbers that are
-- less than `max_length` steps of `skip + 1` from the start, up or down, and in the range of block
-- numbers, and no others.
pub sequence_builder_lem :
    (start max_length skip : ℕ) (reverse : Bool)
    → ((sequence_builder start max_length skip reverse ≡ err oversize_object)
        × (1250000 < max_length))
      ⊎ ((numbers : List ℕ) × (max_length ≤ 1250000)
          × (sequence_builder start max_length skip reverse ≡ ok numbers)
          × ((n : ℕ) → (elem ℕ_discrete n numbers ≡ true) ↔ Meant start max_length skip reverse n))
unfolding sequence_builder
sequence_builder_lem start count skip reverse =
    elim (Bool-cases (ltb (maximum_object_memory_bytes / 8) count)) [
      | inl e ↦ inl (rw e refl, ground arith)
      | inr e ↦
          let z = pos start in
          let step = step_of skip reverse in
          inr (
            within uint_256_max (range count z step),
            ground arith,
            rw e refl,
            λ n.
                let (to, back) = Entry-Meant start count skip reverse n in
                (
                  (λ inside. to (elem-Entry uint_256_max count z step n inside)),
                  (λ meant.
                      let (k, less, at, h) = back meant in
                      elem-within uint_256_max count z step n k less at h),
                ),
          )
    ]
