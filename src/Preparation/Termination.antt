-- ===== src/Preparation/Termination.antt =====
-- About the loop of `_mark_complete`: what one round does to the waiting tasks.
use trinity.Prelude.{
  ℕ, zero, suc, ◌<◌, ◌≡◌, ◌≢◌, ◌⊎◌, inl, inr, refl, List, [], ◌∷◌, ◌++◌, elem, remove, length,
  Bool-cases, Option-cases, arith, length-remove, ◌&&◌, if◌then◌else◌,
}
use trinity.Prelude.Exec.{Exec, Result, ok, err, key_error, diverges, continue}
use trinity.Prelude.Dict.{get}
use trinity.Roots.Tracker.{get_children}
use trinity.Preparation.Tasks.{
  Setup, Preparation, complete, depending, mark_one, mark_each, mark_loop, mark_complete,
}

module _ {T K P : Type 0} (dec : Discrete K) (dec_prereq : Discrete P) (setup : Setup T K P) where
  -- A look at the children that changes nothing.
  abbrev Looks : List K → Preparation T K P → Type 0
  Looks ds s =
      (depending dec dec_prereq setup ds s ≡ (err key_error, s))
      ⊎ ((es : List K) × (depending dec dec_prereq setup ds s ≡ (ok es, s)))

  depending_cases : (ds : List K) (s : Preparation T K P) → Looks ds s
  unfolding depending
  depending_cases [] s = inr ([], refl)
  depending_cases (d ∷ ds) s = elim (Option-cases (get dec s.tasks d)) [
    | inl out ↦ inl (rw out refl)
    | inr (c, at) ↦ elim (depending_cases ds s) [
      | inl run ↦ inl (rw (at, run) refl)
      | inr (es, run) ↦ inr (
        if complete dec dec_prereq setup c && elem dec d s.unready then d ∷ es else es,
        rw (at, run) refl,
      )
    ]
  ]

  -- Either a KeyError, or fewer tasks are waiting.
  abbrev Marks : ℕ → Result (List K) × Preparation T K P → Type 0
  Marks bound out =
      (out.0 ≡ err key_error) ⊎ ((ds : List K) × (out.0 ≡ ok ds) × (length out.1.unready < bound))

  mark_one_cases :
      (q : K) (s : Preparation T K P) → Marks (length s.unready) (mark_one dec dec_prereq setup q s)
  unfolding mark_one
  mark_one_cases q s = elim (Option-cases (get dec s.tasks q)) [
    | inl out ↦ rw out (inl refl)
    | inr (c, at) ↦ elim (Bool-cases (elem dec q s.unready)) [
      | inr gone ↦ rw (at, gone) (inl refl)
      | inl waiting ↦
          let s' : Preparation T K P = record s {
            ready_tasks = s.ready_tasks ++ c.task ∷ [];
            unready = remove dec q s.unready;
          } in
          elim (depending_cases (get_children dec q s.roots) s') [
            | inl run ↦ rw (at, waiting, run) (inl refl)
            | inr (es, run) ↦
                rw (at, waiting, run)
                  (inr (es, refl, omega (arith, length-remove dec q s.unready waiting)))
          ]
    ]
  ]

  Marks-continue :
      (bound bound' : ℕ) (r : Result (List K)) (s' : Preparation T K P)
      (f : List K → Exec (Preparation T K P) (List K))
      → Marks bound (r, s')
      → ((ds : List K) → length s'.unready < bound → Marks bound' (f ds s'))
      → Marks bound' (continue r f s')
  Marks-continue bound bound' (ok ds) s' f (inl e) q = cc
  Marks-continue bound bound' (ok ds) s' f (inr (es, e, less)) q = q ds less
  Marks-continue bound bound' (err e) s' f (inl e') q = inl e'
  Marks-continue bound bound' (err e) s' f (inr (es, e', less)) q = cc

  -- One round over one task or more.
  mark_each_cases :
      (q : K) (qs : List K) (s : Preparation T K P)
      → Marks (length s.unready) (mark_each dec dec_prereq setup (q ∷ qs) s)
  unfolding mark_each
  mark_each_cases q [] s =
      Marks-continue (length s.unready) (length s.unready) (mark_one dec dec_prereq setup q s).0
        (mark_one dec dec_prereq setup q s).1 _ (mark_one_cases q s)
        (λ ds less. inr (ds ++ [], refl, less))
  mark_each_cases q (q' ∷ qs) s =
      let s' = (mark_one dec dec_prereq setup q s).1 in
      let run = mark_each dec dec_prereq setup (q' ∷ qs) s' in
      Marks-continue (length s.unready) (length s.unready) (mark_one dec dec_prereq setup q s).0 s'
        _ (mark_one_cases q s)
        (λ ds less.
          Marks-continue (length s'.unready) (length s.unready) run.0 run.1 _
            (mark_each_cases q' qs s') (λ es less'. inr (ds ++ es, refl, omega arith)))

  ends-continue :
      (bound : ℕ) (r : Result (List K)) (s' : Preparation T K P)
      (f : List K → Exec (Preparation T K P) Unit)
      → Marks bound (r, s')
      → ((ds : List K) → length s'.unready < bound → (f ds s').0 ≢ err diverges)
      → (continue r f s').0 ≢ err diverges
  ends-continue bound (ok ds) s' f (inl e) q bad = cc
  ends-continue bound (ok ds) s' f (inr (es, e, fewer)) q bad = q ds fewer bad
  ends-continue bound (err x) s' f (inl e) q bad = cc
  ends-continue bound (err x) s' f (inr (es, e, fewer)) q bad = cc

  mark_loop_ends :
      (fuel : ℕ) (qs : List K) (s : Preparation T K P)
      → length s.unready < fuel
      → (mark_loop dec dec_prereq setup fuel qs s).0 ≢ err diverges
  unfolding mark_loop
  mark_loop_ends fuel [] s less e = cc
  mark_loop_ends zero (q ∷ qs) s less e = absurd (omega arith)
  mark_loop_ends (suc fuel) (q ∷ qs) s less e =
      let run = mark_each dec dec_prereq setup (q ∷ qs) s in
      ends-continue (length s.unready) run.0 run.1 _ (mark_each_cases q qs s)
        (λ ds fewer. mark_loop_ends fuel ds run.1 (omega arith)) e

  -- One round for every waiting task and one more is enough fuel: `_mark_complete` ends from any
  -- state, whatever the forest of tasks is like.
  pub mark_complete_ends :
      (task_id : K) (s : Preparation T K P)
      → (mark_complete dec dec_prereq setup task_id s).0 ≢ err diverges
  unfolding mark_complete
  mark_complete_ends task_id s =
      mark_loop_ends (suc (length s.unready)) (task_id ∷ []) s (omega arith)
