-- ===== src/TaskQueue/Adding.antt =====
-- `add`: it does not lose a task, fills the queue up to its limit and then waits.
use trinity.Prelude.{
  ℕ, ◌+◌, ◌-◌, ◌<◌, ◌≡◌, ◌∙◌, refl, ap, true, false, List, [], ◌∷◌, elem, elem_head, elem_more,
  length, Distinct, arith, ◌⊎◌, inl, inr, Bool-cases, ltb, ◌==◌,
}
use trinity.Prelude.Exec.{ok, err, validation_error}
use trinity.Prelude.Sorting.{TotalOrder, sort_by}
use trinity.TaskQueue.Queue.{Queue, meets, by_order, add_loop, add, resume_add}
use trinity.TaskQueue.Counts.{count, once, count-Distinct, count-insert}
use trinity.TaskQueue.Invariant.{IsConsistent, IsFresh, lock-IsConsistent}
use trinity.TaskQueue.Rounds.{drop_all, Added, Ends, done, full_lem, round_lem}

module _ {T O : Type 0} (dec : Discrete T) (order : TotalOrder O) (order_fn : T → O)
    (held : T → ℕ) where
  -- Four rounds are enough: one that queues, one that takes the lock, and one that waits or ends.
  add_loop_lem :
      (remaining : List T) (q : Queue T)
      → IsConsistent dec order order_fn held q
      → IsFresh dec remaining q.tasks
      → Ends dec order order_fn held remaining q (add_loop dec order order_fn 4 remaining q)
  unfolding add_loop
  add_loop_lem [] q c f = done dec order order_fn held 3 q c
  add_loop_lem (t ∷ ts) q c f = elim (Bool-cases (q.maxsize == 0)) [
    | inl e ↦ simp e (
        round_lem dec order order_fn held 1 (length (t ∷ ts)) (t ∷ ts) q c f
          (λ p. absurd (ground arith)) (λ z. drop_all (t ∷ ts)))
    | inr e ↦ elim (Bool-cases (ltb (length q.tasks) q.maxsize)) [
      | inl room ↦
          simp (e, room)
            (round_lem dec order order_fn held 1 (q.maxsize - length q.tasks) (t ∷ ts) q c f
              (λ p. ground arith) (λ z. absurd (ground arith)))
      | inr full ↦
          let p : 0 < q.maxsize = ground arith in
          let filled : length q.tasks ≡ q.maxsize = ground (arith, c.bounded p) in
          full_lem dec order order_fn held 2 (t ∷ ts) q c f p filled
    ]
  ]

  meets_none :
      (t : T) (xs tasks : List T)
      → meets dec xs tasks ≡ false
      → elem dec t xs ≡ true
      → elem dec t tasks ≡ false
  meets_none t [] tasks h k = ground arith
  meets_none t (x ∷ xs) tasks h k = ground (arith, meets_none t xs tasks)

  meets_some :
      (xs tasks : List T)
      → meets dec xs tasks ≡ true
      → (t : T) × (elem dec t xs ≡ true) × (elem dec t tasks ≡ true)
  meets_some [] tasks h = absurd (ground arith)
  meets_some (x ∷ xs) tasks h = elim (Bool-cases (elem dec x tasks)) [
    | inl e ↦ (x, elem_head dec x xs, e)
    | inr e ↦
        let (t, inside, there) = meets_some xs tasks (ground arith) in
        (t, elem_more dec t x xs inside, there)
  ]

  count-sort_by :
      (t : T) (xs : List T)
      → count dec t (sort_by (by_order dec order order_fn) xs) ≡ count dec t xs
  count-sort_by t [] = refl
  count-sort_by t (x ∷ xs) = ground (
    arith,
    count-insert dec (by_order dec order order_fn) t x (sort_by (by_order dec order order_fn) xs),
    count-sort_by t xs,
  )

  -- add of different tasks raises a ValidationError and changes nothing where one of them is in the
  -- queue. Where none is, it ends or waits after at most four rounds of its loop, keeps the invariant,
  -- and loses no task: each is in the queue or still to be added. Something is left only where the
  -- queue has its maximal size, and then the lock is taken.
  pub add_ends :
      (tasks : List T) (q : Queue T)
      → IsConsistent dec order order_fn held q
      → Distinct dec tasks
      → (((t : T) × (elem dec t tasks ≡ true) × (elem dec t q.tasks ≡ true))
          × (add dec order order_fn tasks q ≡ (err validation_error, q)))
        ⊎ (((t : T) → elem dec t tasks ≡ true → elem dec t q.tasks ≡ false)
            × (left : List T) × (after : Queue T) × (add dec order order_fn tasks q
                ≡ (ok left, after))
            × Added dec order order_fn held tasks q left after)
  unfolding add
  add_ends tasks q c d = elim (Bool-cases (meets dec tasks q.tasks)) [
    | inl e ↦ inl (meets_some tasks q.tasks e, rw e refl)
    | inr e ↦
        let fresh : IsFresh dec (sort_by (by_order dec order order_fn) tasks) q.tasks = λ t.
          ground (
            arith,
            count-sort_by t tasks,
            count-Distinct dec t tasks d,
            meets_none t tasks q.tasks e,
          ) in
        let (left, after, ends, a) =
          add_loop_lem (sort_by (by_order dec order order_fn) tasks) q c fresh in
        inr (
          λ t. meets_none t tasks q.tasks e,
          left,
          after,
          rw e ends,
          record {
            consistent = a.consistent;
            limit = a.limit;
            fresh = a.fresh;
            kept = λ t. a.kept t ∙ ap (λ n. once dec t q.tasks + n) (count-sort_by t tasks);
            waits = a.waits;
          },
        )
  ]

  -- A call of add that waited, and was woken, keeps the same promise for what it has left.
  pub resume_add_ends :
      (remaining : List T) (q : Queue T)
      → IsConsistent dec order order_fn held q
      → IsFresh dec remaining q.tasks
      → (left : List T) × (after : Queue T) × (resume_add dec order order_fn remaining q
          ≡ (ok left, after))
        × Added dec order order_fn held remaining q left after
  unfolding resume_add
  resume_add_ends remaining q c f =
      let locked : Queue T = record q { full_lock = true } in
      let (left, after, ends, a) =
        add_loop_lem remaining locked (lock-IsConsistent dec order order_fn held true q c) f in
      (
        left,
        after,
        ends,
        record {
          consistent = a.consistent;
          limit = a.limit;
          fresh = a.fresh;
          kept = a.kept;
          waits = a.waits;
        },
      )
