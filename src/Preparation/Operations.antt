-- ===== src/Preparation/Operations.antt =====
-- The methods of `OrderedTaskPreparation`, and what they do to the invariant of Consistency.
use trinity.Prelude.{
  ℕ, ◌≡◌, ◌≢◌, ◌⊎◌, inl, inr, refl, sym, ap, subst, ◌∙◌, Bool, true, false, some, Option, List, [],
  ◌∷◌, ◌&&◌, not, elem, remove, Bool-cases, Option-cases, some_inj, arith, elem-append_end,
}
use trinity.Prelude.Exec.{Exec, Result, ok, err, Error, continue, for_each}
use trinity.Prelude.Dict
use trinity.Prelude.Dict.{Dict, get, put, del, get-put_self, get-put_ne, get-del_found}
use trinity.Prelude.Int.{pos, ◌-ℤ◌}
use trinity.Roots.Tracker
use trinity.Roots.Tracker.{RootTracker}
use trinity.Preparation.Completion.{Completion, new_completion, is_nil, finish, set_complete}
use trinity.Preparation.Prerequisites.{set_complete-is_complete}
use trinity.Preparation.Completion.{asks_nothing}
use trinity.Preparation.Tasks.{
  Setup, Preparation, mark_if_ready, set_finished_dependency, finish_one, register_one, prune_task,
  prune_finished, prune_twice, queue_get_batch, insert, is_positive,
}
use trinity.Preparation.Consistency.{IsConsistent, Advances-IsConsistent, mark_if_ready_lem, done}

module _ {T K P : Type 0} (dec : Discrete K) (dec_prereq : Discrete P) (setup : Setup T K P) where
  abbrev Consistent : Preparation T K P → Type 0
  Consistent s = IsConsistent dec dec_prereq setup s

  -- A method that keeps the tasks consistent, whether it returns or raises.
  abbrev pub Keeps : {A : Type 0} → Exec (Preparation T K P) A → Type 0
  Keeps m = (s : Preparation T K P) → Consistent s → Consistent (m s).1

  pub Keeps-continue :
      {A B : Type 0} (r : Result A) (f : A → Exec (Preparation T K P) B) (s : Preparation T K P)
      → Consistent s
      → ((a : A) → Consistent (f a s).1)
      → Consistent (continue r f s).1
  Keeps-continue (ok a) f s v p = p a
  Keeps-continue (err e) f s v p = v

  pub Keeps-for_each :
      {A : Type 0} (body : A → Exec (Preparation T K P) Unit)
      → ((a : A) → Keeps (body a))
      → (xs : List A) → Keeps (for_each body xs)
  unfolding for_each
  Keeps-for_each body p [] s v = v
  Keeps-for_each body p (x ∷ xs) s v =
      Keeps-continue (body x s).0 _ (body x s).1 (p x s v)
        (λ _. Keeps-for_each body p xs (body x s).1 (p x s v))

  -- A task put among the others: it is waiting, or has all its prerequisites.
  put-IsConsistent :
      (s s' : Preparation T K P) (k : K) (c : Completion T P)
      → Consistent s
      → s'.tasks ≡ put dec s.tasks k c
      → ((j : K) → j ≢ k → elem dec j s'.unready ≡ elem dec j s.unready)
      → (elem dec k s'.unready ≡ false → done dec dec_prereq setup c ≡ true)
      → Consistent s'
  put-IsConsistent s s' k c v e others here j d at out = elim (dec j k) [
    | yes same ↦
        let it : c ≡ d =
          some_inj (get-put_self dec s.tasks k j c same) (ap (λ t. get dec t j) (sym e) ∙ at) in
        subst (λ z. done dec dec_prereq setup z ≡ true) it
          (here (ap (λ z. elem dec z s'.unready) (sym same) ∙ out))
    | no ne ↦
        v j d (sym (get-put_ne dec s.tasks k j c ne) ∙ (ap (λ t. get dec t j) (sym e) ∙ at))
          (sym (others j ne) ∙ out)
  ]

  insert_self : (k : K) (ks : List K) → elem dec k (insert dec dec_prereq setup k ks) ≡ true
  insert_self k ks = elim (Bool-cases (elem dec k ks)) [
    | inl e ↦ rw e e
    | inr e ↦ rw e (ground (arith, elem-append_end dec k k ks))
  ]

  insert_ne :
      (k j : K) (ks : List K)
      → j ≢ k
      → elem dec j (insert dec dec_prereq setup k ks) ≡ elem dec j ks
  insert_ne k j ks ne = elim (Bool-cases (elem dec k ks)) [
    | inl e ↦ rw e refl
    | inr e ↦ rw e (ground (arith, elem-append_end dec j k ks))
  ]

  Result-cases : {A : Type 0} (r : Result A) → ((e : Error) × (r ≡ err e)) ⊎ ((a : A) × (r ≡ ok a))
  Result-cases (ok a) = inr (a, refl)
  Result-cases (err e) = inl (e, refl)

  -- `mark_if_ready` at a task that is there.
  mark-Keeps :
      (k : K) (c : Completion T P) (task : T) (s : Preparation T K P)
      → get dec s.tasks k ≡ some c
      → Consistent s
      → Consistent (mark_if_ready dec dec_prereq setup k c task s).1
  mark-Keeps k c task s at v =
      Advances-IsConsistent dec dec_prereq setup s (mark_if_ready dec dec_prereq setup k c task s).1
        (mark_if_ready_lem dec dec_prereq setup k c task s at) v

  pub set_finished-Keeps : (task : T) → Keeps (set_finished_dependency dec dec_prereq setup task)
  unfolding set_finished_dependency
  set_finished-Keeps task s v =
      let k = setup.id_of task in
      elim (Result-cases (set_complete dec_prereq setup.prerequisites (new_completion task))) [
        | inl (e, run) ↦ rw run v
        | inr (c, run) ↦ elim (Bool-cases (Dict.has dec s.tasks k)) [
          | inl present ↦ rw (run, present) v
          | inr fresh ↦
              rw (run, fresh)
                (put-IsConsistent s (record s { tasks = put dec s.tasks k c }) k c v refl
                  (λ j ne. refl)
                  (λ _.
                    set_complete-is_complete dec_prereq setup.prerequisites (new_completion task) c
                      run))
        ]
      ]

  pub finish_one-Keeps :
      (prereq : P) (task : T) → Keeps (finish_one dec dec_prereq setup prereq task)
  unfolding finish_one
  finish_one-Keeps prereq task s v =
      let k = setup.id_of task in
      elim (Option-cases (get dec s.tasks k)) [
        | inl out ↦ rw out v
        | inr (c, at) ↦ elim (Bool-cases (elem dec k s.unready)) [
          | inr over ↦ rw (at, over) v
          | inl waiting ↦ elim (Result-cases (finish dec_prereq setup.prerequisites prereq c)) [
            | inl (e, run) ↦ rw (at, waiting, run) v
            | inr (c', run) ↦
                let s' : Preparation T K P = record s { tasks = put dec s.tasks k c' } in
                rw (at, waiting, run)
                  (mark-Keeps k c' task s' (get-put_self dec s.tasks k k c' refl) (
                    put-IsConsistent s s' k c' v refl (λ j ne. refl)
                      (λ out. absurd (true_false waiting out))))
          ]
        ]
      ]
    where
      true_false : {b : Bool} → b ≡ true → b ≡ false → ⊥
      true_false p q = cc

  pub register_one-Keeps : (e : K × T) → Keeps (register_one dec dec_prereq setup e)
  unfolding register_one
  register_one-Keeps (k, task) s v =
      elim (Bool-cases (
        not setup.accept_dangling_tasks && not (Dict.has dec s.tasks (setup.dependency_of task)))) [
          | inl missing ↦ rw missing v
          | inr fine ↦ rw fine (
              Keeps-continue (Tracker.add dec k (setup.dependency_of task) s.roots).0 _ after
                after_v
                (λ _.
                  mark-Keeps k (new_completion task) task after
                    (get-put_self dec s.tasks k k (new_completion task) refl) after_v))
        ]
    where
      after : Preparation T K P
      after = record s {
        tasks = put dec s.tasks k (new_completion task);
        unready = insert dec dec_prereq setup k s.unready;
        roots = (Tracker.add dec k (setup.dependency_of task) s.roots).1;
      }

      true_false : {b : Bool} → b ≡ true → b ≡ false → ⊥
      true_false p q = cc

      after_v : Consistent after
      after_v =
          put-IsConsistent s after k (new_completion task) v refl
            (λ j ne. insert_ne k j s.unready ne)
            (λ out. absurd (true_false (insert_self k s.unready) out))

  -- What is deleted does not matter.
  del-IsConsistent :
      (s s' : Preparation T K P) (k : K)
      → Consistent s
      → s'.tasks ≡ del dec s.tasks k
      → s'.unready ≡ s.unready
      → Consistent s'
  del-IsConsistent s s' k v e e' j d at out =
      let (ne, at') = get-del_found dec s.tasks k j d (ap (λ t. get dec t j) (sym e) ∙ at) in
      v j d at' (ap (elem dec j) (sym e') ∙ out)

  prune_task-Keeps : (k : K) → Keeps (prune_task dec dec_prereq setup k)
  unfolding prune_task
  prune_task-Keeps k s v =
      let s' : Preparation T K P = record s { roots = (Tracker.prune dec k s.roots).1 } in
      Keeps-continue (Tracker.prune dec k s.roots).0 _ s' v (λ _.
        elim (Option-cases (get dec s.tasks k)) [
          | inl out ↦ rw out v
          | inr (c, at) ↦ rw at (
              del-IsConsistent s
                (record s' {
                  tasks = del dec s.tasks k;
                  declared_finished = remove dec k s.declared_finished;
                })
                k v refl refl)
        ])

  prune_finished-Keeps : (k : K) → Keeps (prune_finished dec dec_prereq setup k)
  unfolding prune_finished
  prune_finished-Keeps k s v = elim (Bool-cases (Dict.has dec s.tasks k)) [
    | inr gone ↦ rw gone v
    | inl known ↦
        let s' : Preparation T K P = record s { roots = (Tracker.get_root dec k s.roots).1 } in
        rw known (
          Keeps-continue (Tracker.get_root dec k s.roots).0 _ s' v (λ found.
            elim (Bool-cases (is_positive dec dec_prereq setup (found.1 -ℤ pos setup.max_depth))) [
              | inl deep ↦ rw deep (prune_task-Keeps found.0 s' v)
              | inr near ↦ rw near v
            ]))
  ]

  pub prune_twice-Keeps : (task : T) → Keeps (prune_twice dec dec_prereq setup task)
  unfolding prune_twice
  prune_twice-Keeps task s v =
      let k = setup.id_of task in
      let v' = prune_finished-Keeps k s v in
      let s' = (prune_finished dec dec_prereq setup k s).1 in
      Keeps-continue (prune_finished dec dec_prereq setup k s).0 _ s' v'
        (λ _. prune_finished-Keeps k s' v')

  pub queue_get_batch-Keeps :
      (max_results : Option ℕ) → Keeps (queue_get_batch dec dec_prereq setup max_results)
  unfolding queue_get_batch
  queue_get_batch-Keeps max_results s v = elim (Bool-cases (asks_nothing max_results)) [
    | inl bad ↦ rw bad v
    | inr fine ↦ elim (Bool-cases (is_nil s.ready_tasks)) [
      | inl waits ↦ rw (fine, waits) v
      | inr some_ready ↦ rw (fine, some_ready) v
    ]
  ]
