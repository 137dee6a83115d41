-- ===== src/Requests/Numbers.antt =====
-- The numbers of a sequence are in strict order, and so is what a database has of them.
use trinity.Prelude.{
  ℕ, zero, suc, ◌+◌, ◌-◌, ◌<◌, ◌≤◌, ◌≡◌, refl, Bool, true, false, List, [], ◌∷◌, arith, leb,
  Bool-cases, inl, inr,
}
use trinity.Prelude.Int.{pos, negsuc, ◌+ℤ◌, ◌-ℤ◌}
use trinity.Headers.Sequence.{range, within, step_of}
use trinity.Headers.Order.{Strict}

-- The first number is beyond `n`.
abbrev pub Beyond : Bool → ℕ → List ℕ → Type 0
Beyond reverse n [] = Unit
Beyond false n (m ∷ ms) = n < m
Beyond true n (m ∷ ms) = m < n

pub cons-Strict :
    (reverse : Bool) (n : ℕ) (ms : List ℕ)
    → Beyond reverse n ms
    → Strict reverse ms
    → Strict reverse (n ∷ ms)
cons-Strict reverse n [] b s = tt
cons-Strict false n (m ∷ ms) b s = (b, s)
cons-Strict true n (m ∷ ms) b s = (b, s)

up_step : (n skip : ℕ) → pos n +ℤ step_of skip false ≡ pos (n + (skip + 1))
unfolding ◌+ℤ◌
up_step n skip = ground arith

-- Upwards, every number is beyond those that come before it.
up_within :
    (most count n low skip : ℕ)
    → low < n
    → Beyond false low (within most (range count (pos n) (step_of skip false)))
      × Strict false (within most (range count (pos n) (step_of skip false)))
up_within most zero n low skip h = (tt, tt)
up_within most (suc count) n low skip h =
    let (beyond, strict) = up_within most count (n + (skip + 1)) n skip (omega arith) in
    rw (up_step n skip) (elim (Bool-cases (leb n most)) [
      | inl e ↦ rw e (
        h,
        cons-Strict false n (within most (range count (pos (n + (skip + 1))) (step_of skip false)))
            beyond strict,
      )
      | inr e ↦
          let (beyond', strict') = up_within most count (n + (skip + 1)) low skip (omega arith) in
          rw e (beyond', strict')
    ])

down_step_pos : (n skip : ℕ) → skip + 1 ≤ n → pos n +ℤ step_of skip true ≡ pos (n - (skip + 1))
unfolding ◌+ℤ◌ ◌-ℤ◌
down_step_pos n skip h = ground arith

down_step_neg : (n skip : ℕ) → n < skip + 1 → pos n +ℤ step_of skip true ≡ negsuc (skip - n)
unfolding ◌+ℤ◌ ◌-ℤ◌
down_step_neg n skip h = ground arith

down_from_neg : (n skip : ℕ) → negsuc n +ℤ step_of skip true ≡ negsuc (n + (skip + 1))
unfolding ◌+ℤ◌ ◌-ℤ◌
down_from_neg n skip = ground arith

negative_within :
    (most count n skip : ℕ) → within most (range count (negsuc n) (step_of skip true)) ≡ []
negative_within most zero n skip = refl
negative_within most (suc count) n skip =
    rw (down_from_neg n skip) (negative_within most count (n + (skip + 1)) skip)

-- Downwards, every number is below those that come before it, and none comes after a negative one.
down_within :
    (most count n high skip : ℕ)
    → n < high
    → Beyond true high (within most (range count (pos n) (step_of skip true)))
      × Strict true (within most (range count (pos n) (step_of skip true)))
down_within most zero n high skip h = (tt, tt)
down_within most (suc count) n high skip h = elim (Bool-cases (leb (skip + 1) n)) [
  | inl down ↦
      let next = n - (skip + 1) in
      let (beyond, strict) = down_within most count next n skip (ground arith) in
      rw (down_step_pos n skip (ground arith)) (elim (Bool-cases (leb n most)) [
        | inl e ↦ rw e (
          h,
          cons-Strict true n (within most (range count (pos next) (step_of skip true))) beyond
              strict,
        )
        | inr e ↦
            let (beyond', strict') = down_within most count next high skip (ground arith) in
            rw e (beyond', strict')
      ])
  | inr below ↦
      rw (down_step_neg n skip (ground arith), negative_within most count (skip - n) skip)
        (elim (Bool-cases (leb n most)) [ inl e ↦ rw e (h, tt) | inr e ↦ rw e (tt, tt) ])
]

pub within-Strict :
    (reverse : Bool) (most count start skip : ℕ)
    → Strict reverse (within most (range count (pos start) (step_of skip reverse)))
within-Strict false most zero start skip = tt
within-Strict false most (suc count) start skip =
    let (beyond, strict) = up_within most count (start + (skip + 1)) start skip (omega arith) in
    rw (up_step start skip) (elim (Bool-cases (leb start most)) [
      | inl e ↦ rw e (
          cons-Strict false start
            (within most (range count (pos (start + (skip + 1))) (step_of skip false))) beyond
            strict)
      | inr e ↦ rw e strict
    ])
within-Strict true most count start skip =
    (down_within most count start (suc start) skip (omega arith)).1
