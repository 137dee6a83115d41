-- ===== src/TaskQueue/Completing.antt =====
-- `complete`: a consumer gives a batch back, with some of its tasks done.
use trinity.Prelude.{
  ℕ, ◌+◌, ◌≡◌, refl, true, false, ◌&&◌, not, none, some, List, elem, arith, ◌⊎◌, inl, inr,
  Bool-cases, Option-cases, if◌then◌else◌, ℕ_discrete,
}
use trinity.Prelude.Dict
use trinity.Prelude.Dict.{Dict}
use trinity.Prelude.Exec.{ok, err, validation_error}
use trinity.Prelude.Sorting.{TotalOrder}
use trinity.Preparation.Completion.{difference, is_nil}
use trinity.TaskQueue.Queue.{Queue, pop_batch, complete}
use trinity.TaskQueue.Counts.{count, Within-if_nil}
use trinity.TaskQueue.Invariant.{IsConsistent}
use trinity.TaskQueue.Settling.{
  settled, settled-Settles, settles_lem, refused_lem, refused-IsConsistent, unknown_if_not,
}

module _ {T O : Type 0} (dec : Discrete T) (order : TotalOrder O) (order_fn : T → O)
    (held : T → ℕ) where
  no_batch :
      (batch_id : ℕ) (completed : List T) (q : Queue T)
      → Dict.get ℕ_discrete q.in_progress batch_id ≡ none
      → complete dec order order_fn batch_id completed q ≡ (err validation_error, q)
  unfolding complete pop_batch
  no_batch batch_id completed q e = simp e refl

  put_back :
      (d : Dict ℕ (List T)) (k : ℕ) (v : List T)
      → Dict.get ℕ_discrete d k ≡ some v
      → (j : ℕ)
      → Dict.get ℕ_discrete (Dict.put ℕ_discrete (Dict.del ℕ_discrete d k) k v) j
        ≡ Dict.get ℕ_discrete d j
  put_back d k v e j = ground (
    arith,
    Dict.get-put ℕ_discrete (Dict.del ℕ_discrete d k) k j v,
    Dict.get-del ℕ_discrete d k j,
  )

  -- complete raises a ValidationError, and changes nothing, for a number that is no batch. For a
  -- batch it raises one where a task is named that is not of it, and leaves
  -- every batch as it was, with the invariant. In
  -- the other cases it does not raise, keeps the invariant, forgets the batch, removes the completed
  -- tasks from the queue, and makes exactly the others of the batch pending again, once each.
  pub complete_lem :
      (batch_id : ℕ) (completed : List T) (q : Queue T)
      → IsConsistent dec order order_fn held q
      → ((Dict.get ℕ_discrete q.in_progress batch_id ≡ none)
          × (complete dec order order_fn batch_id completed q ≡ (err validation_error, q)))
        ⊎ ((attempted : List T) × (Dict.get ℕ_discrete q.in_progress batch_id ≡ some attempted)
            × (((t : T) × (elem dec t completed ≡ true)
                  × (elem dec t attempted ≡ false)
                  × (batches : Dict ℕ (List T)) × (complete dec order order_fn batch_id completed q
                      ≡ (err validation_error, record q { in_progress = batches }))
                  × IsConsistent dec order order_fn held (record q { in_progress = batches })
                  × ((j : ℕ) → Dict.get ℕ_discrete batches j ≡ Dict.get ℕ_discrete q.in_progress j))
                ⊎ ((after : Queue T) × ((t : T)
                      → elem dec t completed ≡ true
                      → elem dec t attempted ≡ true)
                    × (complete dec order order_fn batch_id completed q ≡ (ok tt, after))
                    × IsConsistent dec order order_fn held after
                    × (Dict.get ℕ_discrete after.in_progress batch_id ≡ none)
                    × ((t : T)
                        → elem dec t after.tasks
                          ≡ (elem dec t q.tasks && not (elem dec t completed)))
                    × ((t : T)
                        → count dec t after.open_queue
                          ≡ count dec t q.open_queue
                            + (if elem dec t attempted && not (elem dec t completed)
                                then 1
                                else 0)))))
  complete_lem batch_id completed q c =
      elim (Option-cases (Dict.get ℕ_discrete q.in_progress batch_id)) [
        | inl e ↦ inl (e, no_batch batch_id completed q e)
        | inr (attempted, found) ↦ inr (
          attempted,
          found,
          elim (Bool-cases (is_nil (difference dec completed attempted))) [
            | inl e ↦
                let known = Within-if_nil dec completed attempted e in
                let (consistent, gone, tasks, pending) =
                  settled-Settles dec order order_fn held q c batch_id attempted completed found
                    known in
                inr (
                  settled dec order order_fn held batch_id attempted completed q,
                  known,
                  settles_lem dec order order_fn held q c batch_id attempted completed found e,
                  consistent,
                  gone,
                  tasks,
                  pending,
                )
            | inr e ↦
                let (t, named, foreign) =
                  unknown_if_not dec order order_fn held q c batch_id attempted completed found e in
                inl (
                  t,
                  named,
                  foreign,
                  Dict.put ℕ_discrete (Dict.del ℕ_discrete q.in_progress batch_id) batch_id
                      attempted,
                  refused_lem dec order order_fn held q c batch_id attempted completed found e,
                  refused-IsConsistent dec order order_fn held q c batch_id attempted completed
                      found,
                  put_back q.in_progress batch_id attempted found,
                )
          ],
        )
      ]
