-- ===== src/Preparation/Completion.antt =====
-- `BaseTaskPrerequisites`: which prerequisites of one task are finished.
use trinity.Prelude.{
  ℕ, Option, none, some, leb, ltb, Bool, true, false, List, [], ◌∷◌, ◌++◌, not, elem, if◌then◌else◌,
}
use trinity.Prelude.Exec.{Result, validation_error}
use trinity.Prelude.Fallible.{pure, raise_if, ◌>>=◌, ◌>>◌}

pub record Completion (T P : Type 0) : Type 0 where
  pub task : T
  pub completed_prereqs : List P

-- `BaseTaskPrerequisites(task)`
abbrev pub new_completion : {T P : Type 0} → T → Completion T P
new_completion task = record { task = task; completed_prereqs = [] }

abbrev pub is_nil : {A : Type 0} → List A → Bool
is_nil [] = true
is_nil (x ∷ xs) = false

-- trinity/_utils/queues.py: how many of the available items a batch takes.
abbrev pub batch_size : Option ℕ → ℕ → ℕ
batch_size none available = available
batch_size (some max_results) available =
    if leb max_results available then max_results else available

abbrev pub asks_nothing : Option ℕ → Bool
asks_nothing none = false
asks_nothing (some max_results) = ltb max_results 1

module _ {P : Type 0} (dec : Discrete P) where
  -- The members of a set that are not in another.
  abbrev pub difference : List P → List P → List P
  difference [] done = []
  difference (p ∷ ps) done =
      let rest = difference ps done in if elem dec p done then rest else p ∷ rest

module _ {T P : Type 0} (dec : Discrete P) where
  -- `prereqs` are the members of the enumeration.
  abbrev pub remaining_prereqs : List P → Completion T P → List P
  remaining_prereqs prereqs c = difference dec prereqs c.completed_prereqs

  unfoldable pub is_complete : List P → Completion T P → Bool
  is_complete prereqs c = is_nil (remaining_prereqs prereqs c)

  unfoldable pub finish : List P → P → Completion T P → Result (Completion T P)
  finish prereqs prereq c = do
    raise_if validation_error (not (elem dec prereq prereqs))
    raise_if validation_error (elem dec prereq c.completed_prereqs)
    pure (record c { completed_prereqs = c.completed_prereqs ++ prereq ∷ [] })

  unfoldable pub finish_all : List P → List P → Completion T P → Result (Completion T P)
  finish_all prereqs [] c = pure c
  finish_all prereqs (p ∷ ps) c = do c' ← finish prereqs p c; finish_all prereqs ps c'

  unfoldable pub set_complete : List P → Completion T P → Result (Completion T P)
  set_complete prereqs c = finish_all prereqs (remaining_prereqs prereqs c) c
