-- ===== src/TaskQueue/Stages.antt =====
-- The stages of `complete`, with other calls between them.
use trinity.Prelude.{
  ℕ, suc, ◌+◌, ◌<◌, ◌≤◌, ◌≡◌, refl, true, false, none, some, List, [], ◌∷◌, elem, length, arith,
  ℕ_discrete,
}
use trinity.Prelude.Dict
use trinity.Prelude.Dict.{Dict}
use trinity.Prelude.Exec.{ok, err, validation_error}
use trinity.Prelude.Sorting.{TotalOrder, insert_sorted, insert-IsSorted}
use trinity.Preparation.Completion.{difference, is_nil}
use trinity.TaskQueue.Queue.{
  Queue, by_order, is_full, put_open, release_if_room, finish_batch, pop_batch,
}
use trinity.TaskQueue.Counts.{
  count, once, count-insert, elem-count, count-pos, length_of_counts, elem-difference,
  difference-Distinct, length-difference,
}
use trinity.TaskQueue.Invariant.{IsConsistent}
use trinity.TaskQueue.Batches.{del-Distinct, del-AllBelow}
use trinity.TaskQueue.Settling.{incomplete_of, batch_counts, incomplete_counts}

module _ {T O : Type 0} (dec : Discrete T) (order : TotalOrder O) (order_fn : T → O)
    (held : T → ℕ) where
  -- The state after a batch was taken out.
  abbrev pub popped : ℕ → Queue T → Queue T
  popped batch_id q = record q { in_progress = Dict.del ℕ_discrete q.in_progress batch_id }

  module _ (q : Queue T) (c : IsConsistent dec order order_fn held q) (batch_id : ℕ)
      (attempted completed : List T)
      (found : Dict.get ℕ_discrete q.in_progress batch_id ≡ some attempted) where
    pub pop_lem :
        is_nil (difference dec completed attempted) ≡ true
        → pop_batch dec order order_fn batch_id completed q
          ≡ (ok (incomplete_of dec order order_fn held attempted completed), popped batch_id q)
    unfolding pop_batch
    pop_lem e = simp (found, e) refl

    pub pop_refused :
        is_nil (difference dec completed attempted) ≡ false
        → pop_batch dec order order_fn batch_id completed q ≡ (
          err validation_error,
          record q {
            in_progress =
                Dict.put ℕ_discrete (Dict.del ℕ_discrete q.in_progress batch_id) batch_id attempted;
          },
        )
    unfolding pop_batch
    pop_refused e = simp (found, e) refl

    pub popped-IsConsistent :
        ((t : T) → elem dec t completed ≡ true → elem dec t attempted ≡ true)
        → IsConsistent dec order order_fn
            (λ t.
              count dec t (incomplete_of dec order order_fn held attempted completed)
              + once dec t completed
              + held t)
            (popped batch_id q)
    popped-IsConsistent known = record {
      counted = λ t. ground (
        arith,
        batch_counts dec order order_fn held q c batch_id attempted completed found t,
        incomplete_counts dec order order_fn held q c batch_id attempted completed found t,
        elem-count dec t attempted,
        known t,
        count-pos dec t attempted,
      );
      distinct = c.distinct;
      sorted = c.sorted;
      bounded = c.bounded;
      numbered = del-Distinct dec batch_id q.in_progress c.numbered;
      below = del-AllBelow dec q.next_id batch_id q.in_progress c.below;
    }

  pub pop_none :
      (q : Queue T) (batch_id : ℕ) (completed : List T)
      → Dict.get ℕ_discrete q.in_progress batch_id ≡ none
      → pop_batch dec order order_fn batch_id completed q ≡ (err validation_error, q)
  unfolding pop_batch
  pop_none q batch_id completed e = simp e refl

  -- There is room for a task that a call of `complete` has.
  pub room_for_held :
      (q : Queue T) (t : T)
      → IsConsistent dec order order_fn held q
      → 0 < held t
      → is_full dec order order_fn q ≡ false
  room_for_held q t c p =
      let fewer : suc (length q.open_queue) ≤ length q.tasks =
        length_of_counts dec (t ∷ q.open_queue) q.tasks c.distinct
          (λ x. ground (arith, c.counted x)) in
      ground (arith, c.bounded)

  abbrev pub with_open : T → Queue T → Queue T
  with_open t q = record q {
    open_queue = insert_sorted (by_order dec order order_fn) t q.open_queue;
  }

  pub put_open_lem :
      (q : Queue T) (t : T)
      → is_full dec order order_fn q ≡ false
      → put_open dec order order_fn t q ≡ (ok tt, with_open t q)
  unfolding put_open
  put_open_lem q t e = simp e refl

  -- With one task less to hold.
  pub with_open-IsConsistent :
      (less : T → ℕ) (q : Queue T) (t : T)
      → IsConsistent dec order order_fn held q
      → ((x : T) → held x ≡ count dec x (t ∷ []) + less x)
      → IsConsistent dec order order_fn less (with_open t q)
  with_open-IsConsistent less q t c h = record {
    counted = λ x.
        ground (
          arith,
          c.counted x,
          h x,
          count-insert dec (by_order dec order order_fn) x t q.open_queue,
        );
    distinct = c.distinct;
    sorted =
        insert-IsSorted (by_order dec order order_fn)
          (λ a b d. order.before_trans (order_fn a) (order_fn b) (order_fn d))
          (λ a b. order.before_total (order_fn a) (order_fn b)) t q.open_queue c.sorted;
    bounded = c.bounded;
    numbered = c.numbered;
    below = c.below;
  }

  -- With the completed tasks no more to hold.
  pub finish-IsConsistent :
      (less : T → ℕ) (q : Queue T) (completed : List T)
      → IsConsistent dec order order_fn held q
      → ((x : T) → held x ≡ once dec x completed + less x)
      → IsConsistent dec order order_fn less (finish_batch dec order order_fn completed q).1
  unfolding finish_batch release_if_room
  finish-IsConsistent less q completed c h = record {
    counted = λ x. ground (arith, c.counted x, h x, elem-difference dec x q.tasks completed);
    distinct = difference-Distinct dec q.tasks completed c.distinct;
    sorted = c.sorted;
    bounded = λ p. omega (arith, c.bounded p, length-difference dec q.tasks completed);
    numbered = c.numbered;
    below = c.below;
  }
