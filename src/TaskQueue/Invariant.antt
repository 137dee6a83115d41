-- ===== src/TaskQueue/Invariant.antt =====
-- What the fields of `TaskQueue` keep to each other.
use trinity.Prelude.{
  ℕ, suc, ◌+◌, ◌<◌, ◌≤◌, ◌≡◌, refl, Bool, false, ◌||◌, List, [], ◌∷◌, ◌++◌, elem, elem-append_end,
  append_end-Distinct, length, length-append, Distinct, arith, ℕ_discrete, inl, inr, Bool-cases,
  leb, ◌==◌,
}
use trinity.Prelude.Bytes.{AllBelow}
use trinity.Prelude.Exec.{ok, for_each}
use trinity.Prelude.Sorting.{TotalOrder, insert_sorted, IsSorted, insert-IsSorted}
use trinity.TaskQueue.Queue.{Queue, update, by_order, put_open}
use trinity.TaskQueue.Counts.{
  count, count_all, once, count-insert, keys, count-pos, elem-count, length_of_counts,
}

module _ {T : Type 0} (dec : Discrete T) where
  elem-update :
      (t : T) (tasks xs : List T)
      → elem dec t (update dec tasks xs) ≡ (elem dec t tasks || elem dec t xs)
  elem-update t tasks [] = ground arith
  elem-update t tasks (x ∷ xs) = elim (Bool-cases (elem dec x tasks)) [
    | inl e ↦ rw e (ground (arith, elem-update t tasks xs))
    | inr e ↦
        rw e (ground (arith, elem-update t (tasks ++ x ∷ []) xs, elem-append_end dec t x tasks))
  ]

  pub update-Distinct :
      (tasks xs : List T) → Distinct dec tasks → Distinct dec (update dec tasks xs)
  update-Distinct tasks [] d = d
  update-Distinct tasks (x ∷ xs) d = elim (Bool-cases (elem dec x tasks)) [
    | inl e ↦ rw e (update-Distinct tasks xs d)
    | inr e ↦ rw e (update-Distinct (tasks ++ x ∷ []) xs (append_end-Distinct dec x tasks d e))
  ]

  -- None of `xs` is there twice, or in `tasks`.
  abbrev pub IsFresh : List T → List T → Type 0
  IsFresh xs tasks = (t : T) → count dec t xs + once dec t tasks ≤ 1

  pub once-update :
      (t : T) (tasks xs : List T)
      → IsFresh xs tasks
      → once dec t (update dec tasks xs) ≡ once dec t tasks + count dec t xs
  once-update t tasks xs h =
      ground (arith, elem-update t tasks xs, h t, count-pos dec t xs, elem-count dec t xs)

  pub length-update :
      (tasks xs : List T)
      → IsFresh xs tasks
      → length (update dec tasks xs) ≡ length tasks + length xs
  length-update tasks [] h = omega arith
  length-update tasks (x ∷ xs) h =
      let new : elem dec x tasks ≡ false = ground (arith, h x) in
      let rest : IsFresh xs (tasks ++ x ∷ []) =
        λ t. ground (arith, h t, elem-append_end dec t x tasks) in
      rw new (omega (arith, length-update (tasks ++ x ∷ []) xs rest, length-append tasks (x ∷ [])))

module _ {T O : Type 0} (dec : Discrete T) (order : TotalOrder O) (order_fn : T → O) where
  abbrev pub insert_all : List T → List T → List T
  insert_all [] queue = queue
  insert_all (x ∷ xs) queue = insert_all xs (insert_sorted (by_order dec order order_fn) x queue)

  pub count-insert_all :
      (t : T) (xs queue : List T)
      → count dec t (insert_all xs queue) ≡ count dec t queue + count dec t xs
  count-insert_all t [] queue = omega arith
  count-insert_all t (x ∷ xs) queue = ground (
    arith,
    count-insert_all t xs (insert_sorted (by_order dec order order_fn) x queue),
    count-insert dec (by_order dec order order_fn) t x queue,
  )

  pub insert_all-IsSorted :
      (xs queue : List T)
      → IsSorted (by_order dec order order_fn) queue
      → IsSorted (by_order dec order order_fn) (insert_all xs queue)
  insert_all-IsSorted [] queue s = s
  insert_all-IsSorted (x ∷ xs) queue s =
      insert_all-IsSorted xs (insert_sorted (by_order dec order order_fn) x queue) (
        insert-IsSorted (by_order dec order order_fn)
          (λ a b c. order.before_trans (order_fn a) (order_fn b) (order_fn c))
          (λ a b. order.before_total (order_fn a) (order_fn b)) x queue s)

  length-insert :
      (x : T) (queue : List T)
      → length (insert_sorted (by_order dec order order_fn) x queue) ≡ suc (length queue)
  length-insert x [] = refl
  length-insert x (y ∷ ys) = ground (arith, length-insert x ys)

  -- As many puts as there is room for do not wait.
  pub put_all_lem :
      (xs : List T) (q : Queue T)
      → (0 < q.maxsize → length q.open_queue + length xs ≤ q.maxsize)
      → for_each (put_open dec order order_fn) xs q
        ≡ (ok tt, record q { open_queue = insert_all xs q.open_queue })
  unfolding for_each put_open
  put_all_lem [] q h = refl
  put_all_lem (x ∷ xs) q h =
      let q' : Queue T = record q {
        open_queue = insert_sorted (by_order dec order order_fn) x q.open_queue;
      } in
      let rest = put_all_lem xs q' (λ p. omega (arith, length-insert x q.open_queue, h p)) in
      elim (Bool-cases (q.maxsize == 0)) [
        | inl e ↦ rw e rest
        | inr e ↦
            let room : leb q.maxsize (length q.open_queue) ≡ false = ground (arith, h) in
            rw (e, room) rest
      ]

  module _ (held : T → ℕ) where
    -- A task of the queue is either pending, in one batch, or held by a call of complete that goes on,
    -- once; the pending ones are sorted; there are at most maxsize tasks, if there is a limit; and no batch has a number yet to come.
    pub record IsConsistent (q : Queue T) : Type 0 where
      pub counted :
          (t : T)
          → count dec t q.open_queue + count_all dec t q.in_progress + held t ≡ once dec t q.tasks
      pub distinct : Distinct dec q.tasks
      pub sorted : IsSorted (by_order dec order order_fn) q.open_queue
      pub bounded : 0 < q.maxsize → length q.tasks ≤ q.maxsize
      pub numbered : Distinct ℕ_discrete (keys dec q.in_progress)
      pub below : AllBelow q.next_id (keys dec q.in_progress)

    pub pending_le : (q : Queue T) → IsConsistent q → length q.open_queue ≤ length q.tasks
    pending_le q c =
        length_of_counts dec q.open_queue q.tasks c.distinct (λ t. omega (arith, c.counted t))

    pub lock-IsConsistent :
        (locked : Bool) (q : Queue T)
        → IsConsistent q
        → IsConsistent (record q { full_lock = locked })
    lock-IsConsistent locked q c = record {
      counted = c.counted;
      distinct = c.distinct;
      sorted = c.sorted;
      bounded = c.bounded;
      numbered = c.numbered;
      below = c.below;
    }
