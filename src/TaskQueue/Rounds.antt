-- ===== src/TaskQueue/Rounds.antt =====
-- The rounds of the loop of `add`.
use trinity.Prelude.{
  ℕ, zero, suc, ◌+◌, ◌<◌, ◌≤◌, ◌≡◌, ◌∙◌, refl, ap, true, false, ◌&&◌, not, List, [], ◌∷◌, length,
  take, drop, arith, ◌⊎◌, inl, inr, Bool-cases, ltb, ◌==◌,
}
use trinity.Prelude.Exec.{Result, ok}
use trinity.Prelude.Sorting.{TotalOrder}
use trinity.TaskQueue.Queue.{Queue, update, release_if_room, enqueue, wait_for_room, add_loop}
use trinity.TaskQueue.Counts.{count, once, count-take-drop}
use trinity.TaskQueue.Invariant.{
  IsConsistent, IsFresh, insert_all, count-insert_all, insert_all-IsSorted, put_all_lem,
  update-Distinct, once-update, length-update, pending_le, lock-IsConsistent,
}

module _ {T : Type 0} where
  pub drop_all : (xs : List T) → drop (length xs) xs ≡ []
  drop_all [] = refl
  drop_all (x ∷ xs) = drop_all xs

  length-take_cases : (n : ℕ) (xs : List T) → (drop n xs ≡ []) ⊎ (length (take n xs) ≡ n)
  length-take_cases zero xs = inr refl
  length-take_cases (suc n) [] = inl refl
  length-take_cases (suc n) (x ∷ xs) = elim (length-take_cases n xs) [
    | inl e ↦ inl e
    | inr e ↦ inr (ap suc e)
  ]

  pub length-take-le : (n : ℕ) (xs : List T) → length (take n xs) ≤ n
  length-take-le zero xs = omega arith
  length-take-le (suc n) [] = omega arith
  length-take-le (suc n) (x ∷ xs) = omega (arith, length-take-le n xs)

module _ {T O : Type 0} (dec : Discrete T) (order : TotalOrder O) (order_fn : T → O)
    (held : T → ℕ) where
  -- What is left to add after a round, or a call, that started with `remaining`: nothing is lost,
  -- and if something is left then the queue is full and the lock taken.
  pub record Added (remaining : List T) (before : Queue T) (left : List T) (after : Queue T)
      : Type 0 where
    pub consistent : IsConsistent dec order order_fn held after
    pub limit : after.maxsize ≡ before.maxsize
    pub fresh : IsFresh dec left after.tasks
    pub kept :
        (t : T)
        → once dec t after.tasks + count dec t left
          ≡ once dec t before.tasks + count dec t remaining
    pub waits :
        (left ≡ [])
        ⊎ ((after.full_lock ≡ true) × (0 < after.maxsize) × (length after.tasks ≡ after.maxsize))

  abbrev pub Ends : List T → Queue T → Result (List T) × Queue T → Type 0
  Ends remaining q outcome =
      (left : List T) × (after : Queue T) × (outcome ≡ (ok left, after))
      × Added remaining q left after

  -- The state after `open_slots` tasks were queued.
  abbrev queued : ℕ → List T → Queue T → Queue T
  queued n remaining q =
      let tasks = update dec q.tasks (take n remaining) in
      record q {
        full_lock = q.full_lock && not (ltb (length tasks) q.maxsize);
        open_queue = insert_all dec order order_fn (take n remaining) q.open_queue;
        tasks = tasks;
      }

  take-IsFresh :
      (n : ℕ) (remaining tasks : List T)
      → IsFresh dec remaining tasks
      → IsFresh dec (take n remaining) tasks
  take-IsFresh n remaining tasks h t = omega (arith, h t, count-take-drop dec t n remaining)

  enqueue_lem :
      (again : List T → Queue T → Result (List T) × Queue T) (n : ℕ) (remaining : List T)
      (q : Queue T)
      → IsConsistent dec order order_fn held q
      → (0 < q.maxsize → length q.tasks + n ≤ q.maxsize)
      → enqueue dec order order_fn again n remaining q
        ≡ again (drop n remaining) (queued n remaining q)
  unfolding enqueue release_if_room
  enqueue_lem again n remaining q c h =
      let room : 0 < q.maxsize → length q.open_queue + length (take n remaining) ≤ q.maxsize = λ p.
        omega (arith, h p, length-take-le n remaining, pending_le dec order order_fn held q c) in
      rw (put_all_lem dec order order_fn (take n remaining) q room) refl

  queued-IsConsistent :
      (n : ℕ) (remaining : List T) (q : Queue T)
      → IsConsistent dec order order_fn held q
      → IsFresh dec remaining q.tasks
      → (0 < q.maxsize → length q.tasks + n ≤ q.maxsize)
      → IsConsistent dec order order_fn held (queued n remaining q)
  queued-IsConsistent n remaining q c f h =
      let some_fresh = take-IsFresh n remaining q.tasks f in
      record {
        counted = λ t. omega (
          arith,
          c.counted t,
          count-insert_all dec order order_fn t (take n remaining) q.open_queue,
          once-update dec t q.tasks (take n remaining) some_fresh,
        );
        distinct = update-Distinct dec q.tasks (take n remaining) c.distinct;
        sorted = insert_all-IsSorted dec order order_fn (take n remaining) q.open_queue c.sorted;
        bounded = λ p. omega (
          arith,
          h p,
          length-update dec q.tasks (take n remaining) some_fresh,
          length-take-le n remaining,
        );
        numbered = c.numbered;
        below = c.below;
      }

  queued-Added :
      (n : ℕ) (remaining : List T) (q : Queue T)
      → IsConsistent dec order order_fn held q
      → IsFresh dec remaining q.tasks
      → (0 < q.maxsize → length q.tasks + n ≤ q.maxsize)
      → IsFresh dec (drop n remaining) (queued n remaining q).tasks
        × ((t : T)
            → once dec t (queued n remaining q).tasks + count dec t (drop n remaining)
              ≡ once dec t q.tasks + count dec t remaining)
  queued-Added n remaining q c f h =
      let some_fresh = take-IsFresh n remaining q.tasks f in
      let kept = λ (t : T). once-update dec t q.tasks (take n remaining) some_fresh in
      (
        λ t. omega (arith, f t, kept t, count-take-drop dec t n remaining),
        λ t. omega (arith, kept t, count-take-drop dec t n remaining),
      )

  -- A call with nothing left ends.
  pub done :
      (fuel : ℕ) (q : Queue T)
      → IsConsistent dec order order_fn held q
      → Ends [] q (add_loop dec order order_fn (suc fuel) [] q)
  unfolding add_loop
  done fuel q c = (
    [],
    q,
    refl,
    record {
      consistent = c;
      limit = refl;
      fresh = λ t. ground arith;
      kept = λ t. refl;
      waits = inl refl;
    },
  )

  blocked :
      (fuel : ℕ) (t : T) (ts : List T) (q : Queue T)
      → 0 < q.maxsize
      → length q.tasks ≡ q.maxsize
      → q.full_lock ≡ true
      → add_loop dec order order_fn (suc fuel) (t ∷ ts) q ≡ (ok (t ∷ ts), q)
  unfolding add_loop wait_for_room
  blocked fuel t ts q p e locked =
      let limited : (q.maxsize == 0) ≡ false = ground arith in
      let full : ltb (length q.tasks) q.maxsize ≡ false = ground arith in
      simp (limited, full, locked) refl

  locks :
      (fuel : ℕ) (t : T) (ts : List T) (q : Queue T)
      → 0 < q.maxsize
      → length q.tasks ≡ q.maxsize
      → q.full_lock ≡ false
      → add_loop dec order order_fn (suc (suc fuel)) (t ∷ ts) q
        ≡ (ok (t ∷ ts), record q { full_lock = true })
  unfolding add_loop wait_for_room
  locks fuel t ts q p e free =
      let limited : (q.maxsize == 0) ≡ false = ground arith in
      let full : ltb (length q.tasks) q.maxsize ≡ false = ground arith in
      simp (limited, full, free) refl

  -- On a full queue the lock is taken, and then waited for.
  pub full_lem :
      (fuel : ℕ) (remaining : List T) (q : Queue T)
      → IsConsistent dec order order_fn held q
      → IsFresh dec remaining q.tasks
      → 0 < q.maxsize
      → length q.tasks ≡ q.maxsize
      → Ends remaining q (add_loop dec order order_fn (suc (suc fuel)) remaining q)
  full_lem fuel [] q c f p e = done (suc fuel) q c
  full_lem fuel (t ∷ ts) q c f p e = elim (Bool-cases q.full_lock) [
    | inl locked ↦ (
      t ∷ ts,
      q,
      blocked (suc fuel) t ts q p e locked,
      record {
        consistent = c;
        limit = refl;
        fresh = f;
        kept = λ t. refl;
        waits = inr (locked, p, e);
      },
    )
    | inr free ↦ (
      t ∷ ts,
      record q { full_lock = true },
      locks fuel t ts q p e free,
      record {
        consistent = lock-IsConsistent dec order order_fn held true q c;
        limit = refl;
        fresh = f;
        kept = λ t. refl;
        waits = inr (refl, p, e);
      },
    )
  ]

  after_round :
      (n : ℕ) (remaining : List T) (q : Queue T) (outcome : Result (List T) × Queue T)
      → IsConsistent dec order order_fn held q
      → IsFresh dec remaining q.tasks
      → (0 < q.maxsize → length q.tasks + n ≤ q.maxsize)
      → Ends (drop n remaining) (queued n remaining q) outcome
      → Ends remaining q outcome
  after_round n remaining q outcome c f h (left, after, e, a) =
      let (fresh, kept) = queued-Added n remaining q c f h in
      (
        left,
        after,
        e,
        record {
          consistent = a.consistent;
          limit = a.limit;
          fresh = a.fresh;
          kept = λ t. a.kept t ∙ kept t;
          waits = a.waits;
        },
      )

  -- A round with room, and what follows it.
  pub round_lem :
      (fuel n : ℕ) (remaining : List T) (q : Queue T)
      → IsConsistent dec order order_fn held q
      → IsFresh dec remaining q.tasks
      → (0 < q.maxsize → length q.tasks + n ≡ q.maxsize)
      → (q.maxsize ≡ 0 → drop n remaining ≡ [])
      → Ends remaining q
          (enqueue dec order order_fn (add_loop dec order order_fn (suc (suc fuel))) n remaining q)
  round_lem fuel n remaining q c f h k =
      let room : 0 < q.maxsize → length q.tasks + n ≤ q.maxsize = λ p. omega (arith, h p) in
      let next = queued n remaining q in
      let c' = queued-IsConsistent n remaining q c f room in
      let (fresh, kept) = queued-Added n remaining q c f room in
      let ends : drop n remaining ≡ []
          → Ends (drop n remaining) next
              (add_loop dec order order_fn (suc (suc fuel)) (drop n remaining) next) =
        λ e. rw e (done (suc fuel) next c') in
      let again = add_loop dec order order_fn (suc (suc fuel)) in
      rw (enqueue_lem again n remaining q c room) (
        after_round n remaining q (again (drop n remaining) next) c f room
          (elim (length-take_cases n remaining) [
            | inl e ↦ ends e
            | inr e ↦ elim (Bool-cases (q.maxsize == 0)) [
              | inl unlimited ↦ ends (k (ground arith))
              | inr limited ↦
                  let p : 0 < q.maxsize = ground arith in
                  let filled : length next.tasks ≡ q.maxsize = omega (
                    arith,
                    h p,
                    length-update dec q.tasks (take n remaining)
                        (take-IsFresh n remaining q.tasks f),
                  ) in
                  full_lem fuel (drop n remaining) next c' fresh p filled
            ]
          ]))
