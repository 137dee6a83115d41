-- ===== src/Preparation/Reachability.antt =====
-- The states that calls of the methods of `OrderedTaskPreparation` lead to, in any order.
use trinity.Prelude.{
  ℕ, refl, Bool, none, some, Option, List, [], ◌&&◌, not, Bool-cases, length, ltb, inl, inr,
  some-ne-none,
}
use trinity.Prelude.Exec.{for_each}
use trinity.Prelude.Dict.{get, size}
use trinity.Preparation.Completion.{is_nil}
use trinity.Preparation.Tasks.{
  Setup, Preparation, new_preparation, set_finished_dependency, finish_prereq, finish_one,
  register_one, register_tasks, wait_add_tasks, next_ready_tasks, prune_twice, queue_get_batch,
  yield_batch, identified, has_duplicate, not_registered, has_room,
}
use trinity.Preparation.Consistency.{IsConsistent}
use trinity.Preparation.Operations.{
  Keeps, Keeps-continue, Keeps-for_each, set_finished-Keeps, finish_one-Keeps, register_one-Keeps,
  prune_twice-Keeps, queue_get_batch-Keeps,
}

module _ {T K P : Type 0} (dec : Discrete K) (dec_prereq : Discrete P) (setup : Setup T K P) where
  finish_prereq-Keeps :
      (prereq : P) (tasks : List T)
      → Keeps dec dec_prereq setup (finish_prereq dec dec_prereq setup prereq tasks)
  unfolding finish_prereq
  finish_prereq-Keeps prereq tasks s v = elim (Bool-cases (is_nil s.tasks)) [
    | inl empty ↦ rw empty v
    | inr fine ↦ rw fine (
        Keeps-for_each dec dec_prereq setup (finish_one dec dec_prereq setup prereq)
          (finish_one-Keeps dec dec_prereq setup prereq) tasks s v)
  ]

  register_tasks-Keeps :
      (tasks : List T) (ignore_duplicates : Bool)
      → Keeps dec dec_prereq setup (register_tasks dec dec_prereq setup tasks ignore_duplicates)
  unfolding register_tasks
  register_tasks-Keeps tasks ignore s v =
      let d = identified dec dec_prereq setup tasks [] in
      let new_tasks = not_registered dec dec_prereq setup d s in
      elim (Bool-cases (ltb (size d) (length tasks) && not ignore)) [
        | inl bad ↦ rw bad v
        | inr once ↦ elim (Bool-cases (has_duplicate dec dec_prereq setup d s && not ignore)) [
          | inl bad ↦ rw (once, bad) v
          | inr fresh ↦
              let v' =
                Keeps-for_each dec dec_prereq setup (register_one dec dec_prereq setup)
                  (register_one-Keeps dec dec_prereq setup) new_tasks s v in
              rw (once, fresh)
                (Keeps-continue dec dec_prereq setup
                  (for_each (register_one dec dec_prereq setup) new_tasks s).0 _
                  (for_each (register_one dec dec_prereq setup) new_tasks s).1 v' (λ _. v'))
        ]
      ]

  wait_add_tasks-Keeps :
      (tasks : List T) (ignore_duplicates : Bool)
      → Keeps dec dec_prereq setup (wait_add_tasks dec dec_prereq setup tasks ignore_duplicates)
  unfolding wait_add_tasks
  wait_add_tasks-Keeps tasks ignore s v = elim (Bool-cases (has_room dec dec_prereq setup s)) [
    | inl room ↦
        let v' = register_tasks-Keeps tasks ignore s v in
        let run = register_tasks dec dec_prereq setup tasks ignore s in
        rw room (Keeps-continue dec dec_prereq setup run.0 _ run.1 v' (λ _. v'))
    | inr full ↦ rw full v
  ]

  yield_batch-Keeps :
      (batch : Option (List T))
      → Keeps dec dec_prereq setup (yield_batch dec dec_prereq setup batch)
  unfolding yield_batch
  yield_batch-Keeps none s v = v
  yield_batch-Keeps (some tasks) s v = v

  next_ready_tasks-Keeps :
      (max_results : Option ℕ)
      → Keeps dec dec_prereq setup (next_ready_tasks dec dec_prereq setup max_results)
  unfolding next_ready_tasks
  next_ready_tasks-Keeps max_results s v =
      let run = for_each (prune_twice dec dec_prereq setup) s.last_yielded_tasks s in
      let v' =
        Keeps-for_each dec dec_prereq setup (prune_twice dec dec_prereq setup)
          (prune_twice-Keeps dec dec_prereq setup) s.last_yielded_tasks s v in
      let batch = queue_get_batch dec dec_prereq setup max_results run.1 in
      let v'' = queue_get_batch-Keeps dec dec_prereq setup max_results run.1 v' in
      Keeps-continue dec dec_prereq setup run.0 _ run.1 v' (λ _.
        Keeps-continue dec dec_prereq setup batch.0 _ batch.1 v''
          (λ found. yield_batch-Keeps found batch.1 v''))

  -- A call may also raise, which leaves what was written before.
  pub data Reachable : Preparation T K P → Type 0 where
    start : Reachable new_preparation
    after_finished_dependency :
        (s : Preparation T K P) (task : T)
        → Reachable s
        → Reachable (set_finished_dependency dec dec_prereq setup task s).1
    after_register_tasks :
        (s : Preparation T K P) (tasks : List T) (ignore_duplicates : Bool)
        → Reachable s
        → Reachable (register_tasks dec dec_prereq setup tasks ignore_duplicates s).1
    after_wait_add_tasks :
        (s : Preparation T K P) (tasks : List T) (ignore_duplicates : Bool)
        → Reachable s
        → Reachable (wait_add_tasks dec dec_prereq setup tasks ignore_duplicates s).1
    after_finish_prereq :
        (s : Preparation T K P) (prereq : P) (tasks : List T)
        → Reachable s
        → Reachable (finish_prereq dec dec_prereq setup prereq tasks s).1
    after_ready_tasks :
        (s : Preparation T K P) (max_results : Option ℕ)
        → Reachable s
        → Reachable (next_ready_tasks dec dec_prereq setup max_results s).1

  new-IsConsistent : IsConsistent dec dec_prereq setup new_preparation
  unfolding get
  new-IsConsistent k c at out = absurd (some-ne-none at refl)

  -- In every state that calls lead to, a registered task that is not waiting has all its
  -- prerequisites finished.
  pub Reachable-IsConsistent :
      (s : Preparation T K P) → Reachable s → IsConsistent dec dec_prereq setup s
  Reachable-IsConsistent _ start = new-IsConsistent
  Reachable-IsConsistent _ (after_finished_dependency s task r) =
      set_finished-Keeps dec dec_prereq setup task s (Reachable-IsConsistent s r)
  Reachable-IsConsistent _ (after_register_tasks s tasks ignore r) =
      register_tasks-Keeps tasks ignore s (Reachable-IsConsistent s r)
  Reachable-IsConsistent _ (after_wait_add_tasks s tasks ignore r) =
      wait_add_tasks-Keeps tasks ignore s (Reachable-IsConsistent s r)
  Reachable-IsConsistent _ (after_finish_prereq s prereq tasks r) =
      finish_prereq-Keeps prereq tasks s (Reachable-IsConsistent s r)
  Reachable-IsConsistent _ (after_ready_tasks s max_results r) =
      next_ready_tasks-Keeps max_results s (Reachable-IsConsistent s r)
