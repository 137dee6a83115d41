-- ===== src/Preparation/Prerequisites.antt =====
-- About `BaseTaskPrerequisites.set_complete`.
use mathlib.Core.List.{append-nil, append_assoc}
use trinity.Prelude.{
  ◌≡◌, ◌⊎◌, inl, inr, refl, sym, ap, ◌∙◌, true, false, List, [], ◌∷◌, ◌++◌, ◌||◌, elem, Bool-cases,
  arith, elem-append, elem-append_end, Distinct, not, ◌&&◌,
}
use trinity.Prelude.Exec.{ok, err, validation_error}
use trinity.Prelude.Fallible.{◌>>=◌}
use trinity.Preparation.Completion.{
  Completion, is_complete, difference, finish, finish_all, set_complete,
}

module _ {P : Type 0} (dec : Discrete P) where
  AllIn : List P → List P → Type 0
  AllIn ps qs = (p : P) → elem dec p ps ≡ true → elem dec p qs ≡ true

  difference_none : (ps qs : List P) → AllIn ps qs → difference dec ps qs ≡ []
  unfolding AllIn
  difference_none [] qs all = refl
  difference_none (p ∷ ps) qs all =
      let here = all p (ground arith) in
      rw (here, difference_none ps qs (λ q inside. all q (ground arith))) refl

  -- What is in a set or not is in it with the difference.
  difference_all : (ps qs : List P) → AllIn ps (qs ++ difference dec ps qs)
  unfolding AllIn
  difference_all ps qs p inside =
      rw (elem-append dec p qs (difference dec ps qs)) (either ps inside)
    where
      either :
          (xs : List P)
          → elem dec p xs ≡ true
          → (elem dec p qs || elem dec p (difference dec xs qs)) ≡ true
      either [] h = ground arith
      either (x ∷ xs) h = elim (dec p x) [
        | yes e ↦ elim (Bool-cases (elem dec x qs)) [ inl y ↦ ground arith | inr n ↦ ground arith ]
        | no ne ↦
            let rest = either xs (ground arith) in
            elim (Bool-cases (elem dec x qs)) [ inl y ↦ ground arith | inr n ↦ ground arith ]
      ]

  elem-difference :
      (p : P) (ps qs : List P)
      → elem dec p (difference dec ps qs) ≡ (elem dec p ps && not (elem dec p qs))
  elem-difference p [] qs = refl
  elem-difference p (x ∷ xs) qs = elim (Bool-cases (elem dec x qs)) [
    | inl gone ↦ elim (dec p x) [
      | yes e ↦ let rest = elem-difference p xs qs in ground arith
      | no ne ↦ let rest = elem-difference p xs qs in ground arith
    ]
    | inr there ↦ elim (dec p x) [
      | yes e ↦ let rest = elem-difference p xs qs in ground arith
      | no ne ↦ let rest = elem-difference p xs qs in ground arith
    ]
  ]

  difference-Distinct : (ps qs : List P) → Distinct dec ps → Distinct dec (difference dec ps qs)
  difference-Distinct [] qs d = tt
  difference-Distinct (x ∷ xs) qs d = elim (Bool-cases (elem dec x qs)) [
    | inl gone ↦ rw gone (difference-Distinct xs qs d.1)
    | inr there ↦
        let out = elem-difference x xs qs in rw there (ground arith, difference-Distinct xs qs d.1)
  ]

  abbrev NoneOf : List P → List P → Type 0
  NoneOf ps qs = (p : P) → elem dec p ps ≡ true → elem dec p qs ≡ false

  module _ {T : Type 0} (prereqs : List P) where
    abbrev finished : P → Completion T P → Completion T P
    finished p c = record c { completed_prereqs = c.completed_prereqs ++ p ∷ [] }

    finish_cases :
        (p : P) (c : Completion T P)
        → (finish dec prereqs p c ≡ err validation_error)
          ⊎ (finish dec prereqs p c ≡ ok (finished p c))
    unfolding finish
    finish_cases p c = elim (Bool-cases (elem dec p prereqs)) [
      | inr out ↦ inl (rw out refl)
      | inl known ↦ elim (Bool-cases (elem dec p c.completed_prereqs)) [
        | inl twice ↦ inl (rw (known, twice) refl)
        | inr fresh ↦ inr (rw (known, fresh) refl)
      ]
    ]

    finish_all-completed :
        (ps : List P) (c c' : Completion T P)
        → finish_all dec prereqs ps c ≡ ok c'
        → c'.completed_prereqs ≡ c.completed_prereqs ++ ps
    unfolding finish_all
    finish_all-completed [] c c' e =
        let same : c' ≡ c = cc in
        ap (λ (z : Completion T P). z.completed_prereqs) same ∙ sym (append-nil c.completed_prereqs)
    finish_all-completed (p ∷ ps) c c' e = elim (finish_cases p c) [
      | inl run ↦
          let bad : err validation_error ≡ ok c' =
            sym (ap (λ r. r >>= finish_all dec prereqs ps) run) ∙ e in
          cc
      | inr run ↦
          let rest =
            finish_all-completed ps (finished p c) c'
              (sym (ap (λ r. r >>= finish_all dec prereqs ps) run) ∙ e) in
          rest ∙ append_assoc c.completed_prereqs (p ∷ []) ps
    ]

    -- `set_complete` leaves no prerequisite.
    pub set_complete-is_complete :
        (c c' : Completion T P)
        → set_complete dec prereqs c ≡ ok c'
        → is_complete dec prereqs c' ≡ true
    unfolding set_complete is_complete
    set_complete-is_complete c c' e =
        let all = finish_all-completed (difference dec prereqs c.completed_prereqs) c c' e in
        rw
          (
            all,
            difference_none prereqs
                (c.completed_prereqs ++ difference dec prereqs c.completed_prereqs)
                (difference_all prereqs c.completed_prereqs),
          )
          refl

    finish_all-ok :
        (ps : List P) (c : Completion T P)
        → ((p : P) → elem dec p ps ≡ true → elem dec p prereqs ≡ true)
        → Distinct dec ps
        → NoneOf ps c.completed_prereqs
        → (c' : Completion T P) × (finish_all dec prereqs ps c ≡ ok c') × (c'.task ≡ c.task)
    unfolding finish_all finish
    finish_all-ok [] c known d fresh = (c, refl, refl)
    finish_all-ok (p ∷ ps) c known d fresh =
        let here = known p (ground arith) in
        let new = fresh p (ground arith) in
        let (c', run, same) =
          finish_all-ok ps (finished p c) (λ q inside. known q (ground arith)) d.1
            (λ q inside.
              let other = fresh q (ground arith) in
              ground (arith, elem-append_end dec q p c.completed_prereqs)) in
        (c', rw (here, new) run, same)

    -- For an enumeration without repeated members `set_complete` does not raise, whatever is
    -- finished already, and leaves the same task with no prerequisite remaining.
    pub set_complete_lem :
        (c : Completion T P)
        → Distinct dec prereqs
        → (c' : Completion T P) × (set_complete dec prereqs c ≡ ok c')
          × (c'.task ≡ c.task)
          × (is_complete dec prereqs c' ≡ true)
    unfolding set_complete
    set_complete_lem c d =
        let ps = difference dec prereqs c.completed_prereqs in
        let (c', run, same) =
          finish_all-ok ps c
            (λ p inside.
              let in_both = elem-difference p prereqs c.completed_prereqs in ground arith)
            (difference-Distinct prereqs c.completed_prereqs d)
            (λ p inside.
              let in_both = elem-difference p prereqs c.completed_prereqs in ground arith) in
        (c', run, same, set_complete-is_complete c c' run)
