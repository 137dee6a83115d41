-- ===== src/TaskQueue/Settling.antt =====
-- What `complete` does to one batch.
use trinity.Prelude.{
  ℕ, ◌+◌, ◌<◌, ◌≤◌, ◌≡◌, ◌∙◌, refl, ap, true, false, ◌&&◌, not, none, some, List, [], ◌∷◌, ◌++◌,
  elem, elem_head, length, length-append, arith, inl, inr, List-cases, append_end-Distinct, ltb,
  if◌then◌else◌, ℕ_discrete,
}
use trinity.Prelude.Bytes.{append-AllBelow}
use trinity.Prelude.Dict
use trinity.Prelude.Dict.{Dict}
use trinity.Prelude.Exec.{ok, err, validation_error}
use trinity.Prelude.Sorting.{TotalOrder}
use trinity.Preparation.Completion.{difference, is_nil}
use trinity.TaskQueue.Queue.{Queue, members, release_if_room, finish_batch, pop_batch, complete}
use trinity.TaskQueue.Counts.{
  count, count_all, once, count-Distinct, count-pos, count-append, length-difference, elem-count,
  keys, count_all-put, count_all-del, elem-difference, difference-Distinct, elem-members,
  members-Distinct, length_of_counts,
}
use trinity.TaskQueue.Invariant.{
  IsConsistent, insert_all, count-insert_all, insert_all-IsSorted, put_all_lem,
}
use trinity.TaskQueue.Batches.{
  elem-keys-del_self, keys-put_new, key_below, del-Distinct, del-AllBelow,
}

module _ {T O : Type 0} (dec : Discrete T) (order : TotalOrder O) (order_fn : T → O)
    (held : T → ℕ) where
  abbrev pub incomplete_of : List T → List T → List T
  incomplete_of attempted completed = difference dec (members dec attempted) completed

  -- The state after a batch was given back.
  abbrev pub settled : ℕ → List T → List T → Queue T → Queue T
  settled batch_id attempted completed q =
      let tasks = difference dec q.tasks completed in
      record q {
        full_lock = q.full_lock && not (ltb (length tasks) q.maxsize);
        open_queue = insert_all dec order order_fn (incomplete_of attempted completed) q.open_queue;
        tasks = tasks;
        in_progress = Dict.del ℕ_discrete q.in_progress batch_id;
      }

  module _ (q : Queue T) (c : IsConsistent dec order order_fn held q) (batch_id : ℕ)
      (attempted completed : List T)
      (found : Dict.get ℕ_discrete q.in_progress batch_id ≡ some attempted) where
    pub batch_counts :
        (t : T)
        → count dec t q.open_queue
            + (count_all dec t (Dict.del ℕ_discrete q.in_progress batch_id) + count dec t attempted)
            + held t
          ≡ once dec t q.tasks
    batch_counts t =
        omega (
          arith,
          c.counted t,
          count_all-del dec t q.in_progress batch_id attempted c.numbered found,
        )

    pub incomplete_counts :
        (t : T)
        → count dec t (incomplete_of attempted completed)
          ≡ (if elem dec t attempted && not (elem dec t completed) then 1 else 0)
    incomplete_counts t =
        let once_each = count-Distinct dec t (incomplete_of attempted completed) (
          difference-Distinct dec (members dec attempted) completed
            (members-Distinct dec attempted)) in
        ground (
          arith,
          once_each,
          elem-difference dec t (members dec attempted) completed,
          elem-members dec t attempted,
        )

    incomplete_le :
        (t : T) → count dec t (incomplete_of attempted completed) ≤ count dec t attempted
    incomplete_le t = ground (arith, incomplete_counts t, elem-count dec t attempted)

    room_for_incomplete :
        0 < q.maxsize → length q.open_queue + length (incomplete_of attempted completed) ≤ q.maxsize
    room_for_incomplete p =
        let both = q.open_queue ++ incomplete_of attempted completed in
        let small : length both ≤ length q.tasks =
          length_of_counts dec both q.tasks c.distinct (λ t. omega (
            arith,
            count-append dec t q.open_queue (incomplete_of attempted completed),
            incomplete_le t,
            batch_counts t,
          )) in
        omega (arith, length-append q.open_queue (incomplete_of attempted completed), c.bounded p)

    settled-IsConsistent :
        ((t : T) → elem dec t completed ≡ true → elem dec t attempted ≡ true)
        → IsConsistent dec order order_fn held (settled batch_id attempted completed q)
    settled-IsConsistent known = record {
      counted = λ t. ground (
        arith,
        batch_counts t,
        incomplete_counts t,
        count-insert_all dec order order_fn t (incomplete_of attempted completed) q.open_queue,
        elem-difference dec t q.tasks completed,
        elem-count dec t attempted,
        known t,
        count-pos dec t attempted,
      );
      distinct = difference-Distinct dec q.tasks completed c.distinct;
      sorted =
          insert_all-IsSorted dec order order_fn (incomplete_of attempted completed) q.open_queue
            c.sorted;
      bounded = λ p. omega (arith, c.bounded p, length-difference dec q.tasks completed);
      numbered = del-Distinct dec batch_id q.in_progress c.numbered;
      below = del-AllBelow dec q.next_id batch_id q.in_progress c.below;
    }

    -- What complete does with a batch whose tasks `completed` names.
    abbrev pub Settles : Queue T → Type 0
    Settles after =
        IsConsistent dec order order_fn held after
        × (Dict.get ℕ_discrete after.in_progress batch_id ≡ none)
        × ((t : T) → elem dec t after.tasks ≡ (elem dec t q.tasks && not (elem dec t completed)))
        × ((t : T)
            → count dec t after.open_queue
              ≡ count dec t q.open_queue
                + (if elem dec t attempted && not (elem dec t completed) then 1 else 0))

    pub settled-Settles :
        ((t : T) → elem dec t completed ≡ true → elem dec t attempted ≡ true)
        → Settles (settled batch_id attempted completed q)
    settled-Settles known = (
      settled-IsConsistent known,
      Dict.get-del_self ℕ_discrete q.in_progress batch_id batch_id refl,
      λ t. elem-difference dec t q.tasks completed,
      λ t. omega (
        arith,
        count-insert_all dec order order_fn t (incomplete_of attempted completed) q.open_queue,
        incomplete_counts t,
      ),
    )

    pub settles_lem :
        is_nil (difference dec completed attempted) ≡ true
        → complete dec order order_fn batch_id completed q
          ≡ (ok tt, settled batch_id attempted completed q)
    unfolding complete pop_batch finish_batch release_if_room
    settles_lem e =
        let popped : Queue T = record q {
          in_progress = Dict.del ℕ_discrete q.in_progress batch_id;
        } in
        simp
          (
            found,
            e,
            put_all_lem dec order order_fn (incomplete_of attempted completed) popped
                room_for_incomplete,
          )
          refl

    pub refused_lem :
        is_nil (difference dec completed attempted) ≡ false
        → complete dec order order_fn batch_id completed q ≡ (
          err validation_error,
          record q {
            in_progress =
                Dict.put ℕ_discrete (Dict.del ℕ_discrete q.in_progress batch_id) batch_id attempted;
          },
        )
    unfolding complete pop_batch
    refused_lem e = simp (found, e) refl

    pub refused-IsConsistent : IsConsistent dec order order_fn held (record q {
      in_progress =
          Dict.put ℕ_discrete (Dict.del ℕ_discrete q.in_progress batch_id) batch_id attempted;
    })
    refused-IsConsistent =
        let rest = Dict.del ℕ_discrete q.in_progress batch_id in
        let gone = Dict.get-del_self ℕ_discrete q.in_progress batch_id batch_id refl in
        let absent = elem-keys-del_self dec batch_id q.in_progress in
        let ends = keys-put_new dec batch_id attempted rest absent in
        record {
          counted =
              λ t. omega (arith, batch_counts t, count_all-put dec t rest batch_id attempted gone);
          distinct = c.distinct;
          sorted = c.sorted;
          bounded = c.bounded;
          numbered = rw ends (
              append_end-Distinct ℕ_discrete batch_id (keys dec rest)
                (del-Distinct dec batch_id q.in_progress c.numbered) absent);
          below = rw ends (
              append-AllBelow q.next_id (keys dec rest) (batch_id ∷ [])
                (del-AllBelow dec q.next_id batch_id q.in_progress c.below)
                (key_below dec q.next_id batch_id attempted q.in_progress c.below found, tt));
        }

    pub unknown_if_not :
        is_nil (difference dec completed attempted) ≡ false
        → (t : T) × (elem dec t completed ≡ true) × (elem dec t attempted ≡ false)
    unknown_if_not e = elim (List-cases (difference dec completed attempted)) [
      | inl n ↦ absurd (ground arith)
      | inr (x, xs, n) ↦
          let here : elem dec x (difference dec completed attempted) ≡ true =
            ap (elem dec x) n ∙ elem_head dec x xs in
          (
            x,
            ground (arith, elem-difference dec x completed attempted),
            ground (arith, elem-difference dec x completed attempted),
          )
    ]
