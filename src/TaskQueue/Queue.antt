-- ===== src/TaskQueue/Queue.antt =====
-- `TaskQueue`: tasks that consumers take in batches, the most urgent first. `_open_queue` is a
-- sorted list of tasks, whose wrapper is their order; a set is a list without repeated members, and
-- the lock a flag. `add` and `get` give back what is left where they go on waiting.
use trinity.Prelude.{
  ℕ, zero, suc, ◌-◌, Bool, true, false, ◌&&◌, ◌||◌, not, Option, none, some, List, [], ◌∷◌, ◌++◌,
  elem, length, take, drop, ltb, leb, ◌==◌, ℕ_discrete, if◌then◌else◌,
}
use trinity.Prelude.Exec.{
  Exec, validation_error, queue_full, would_wait, diverges, pure, raise, gets, require, modify,
  raise_if, for_each, ◌>>=◌, ◌>>◌,
}
use trinity.Prelude.Dict
use trinity.Prelude.Dict.{Dict}
use trinity.Prelude.Sorting.{TotalOrder, insert_sorted, sort_by}
use trinity.Preparation.Completion.{difference, is_nil, batch_size, asks_nothing}

pub record Queue (T : Type 0) : Type 0 where
  pub maxsize : ℕ
  pub full_lock : Bool
  pub open_queue : List T
  pub next_id : ℕ
  pub tasks : List T
  pub in_progress : Dict ℕ (List T)

abbrev pub new_queue : {T : Type 0} → ℕ → Queue T
new_queue maxsize = record {
  maxsize = maxsize;
  full_lock = false;
  open_queue = [];
  next_id = 0;
  tasks = [];
  in_progress = [];
}

module _ {T : Type 0} (dec : Discrete T) where
  -- `set(xs)`
  abbrev pub members : List T → List T
  members [] = []
  members (x ∷ xs) = let rest = members xs in if elem dec x rest then rest else x ∷ rest

  -- `set.update`
  abbrev pub update : List T → List T → List T
  update tasks [] = tasks
  update tasks (x ∷ xs) = update (if elem dec x tasks then tasks else tasks ++ x ∷ []) xs

  abbrev pub meets : List T → List T → Bool
  meets [] tasks = false
  meets (x ∷ xs) tasks = elem dec x tasks || meets xs tasks

-- `order_fn` maps a task to what tasks are ordered by.
module _ {T O : Type 0} (dec : Discrete T) (order : TotalOrder O) (order_fn : T → O) where
  abbrev pub Method : Type 0 → Type 0
  Method A = Exec (Queue T) A

  -- `SortableTask`
  abbrev pub by_order : T → T → Bool
  by_order a b = order.before (order_fn a) (order_fn b)

  -- `PriorityQueue.full`
  abbrev pub is_full : Queue T → Bool
  is_full q = not (q.maxsize == 0) && leb q.maxsize (length q.open_queue)

  -- `_open_queue.put`
  unfoldable pub put_open : T → Method Unit
  put_open task = do
    full ← gets is_full
    raise_if would_wait full
    modify (λ q. record q { open_queue = insert_sorted by_order task q.open_queue })

  unfoldable pub release_if_room : Method Unit
  release_if_room =
      modify (λ q. record q { full_lock = q.full_lock && not (ltb (length q.tasks) q.maxsize) })

  -- One round of the loop of `add`, with the next rounds.
  unfoldable pub enqueue : (List T → Method (List T)) → ℕ → List T → Method (List T)
  unfolding put_open release_if_room
  enqueue again open_slots remaining = do
    let queueing = take open_slots remaining
    for_each put_open queueing
    modify (λ q. record q { tasks = update dec q.tasks queueing })
    release_if_room
    again (drop open_slots remaining)

  unfoldable pub wait_for_room : (List T → Method (List T)) → List T → Method (List T)
  wait_for_room again remaining = do
    locked ← gets (λ q. q.full_lock)
    if locked
        then pure remaining
        else (do modify (λ q. record q { full_lock = true }); again remaining)

  unfoldable pub add_loop : ℕ → List T → Method (List T)
  add_loop zero remaining = raise diverges
  add_loop (suc fuel) [] = pure []
  add_loop (suc fuel) (t ∷ ts) = do
    num_tasks ← gets (λ q. length q.tasks)
    maxsize ← gets (λ q. q.maxsize)
    if maxsize == 0
        then enqueue (add_loop fuel) (length (t ∷ ts)) (t ∷ ts)
        else if ltb num_tasks maxsize
        then enqueue (add_loop fuel) (maxsize - num_tasks) (t ∷ ts)
        else wait_for_room (add_loop fuel) (t ∷ ts)

  -- `add`: what is left to add when the lock is not free.
  unfoldable pub add : List T → Method (List T)
  add tasks = do
    already_pending ← gets (λ q. meets dec tasks q.tasks)
    raise_if validation_error already_pending
    add_loop 4 (sort_by by_order tasks)

  -- The same call when the lock was released.
  unfoldable pub resume_add : List T → Method (List T)
  resume_add remaining = do modify (λ q. record q { full_lock = true }); add_loop 4 remaining

  unfoldable pub start_batch : List T → Method (ℕ × List T)
  start_batch pending_tasks = do
    next_id ← gets (λ q. q.next_id)
    modify (λ q. record q {
      next_id = suc next_id;
      in_progress = Dict.put ℕ_discrete q.in_progress next_id pending_tasks;
    })
    pure (next_id, pending_tasks)

  -- `queue_get_nowait` of trinity/_utils/queues.py
  unfoldable pub take_open : Option ℕ → Method (List T)
  take_open max_results = do
    queue ← gets (λ q. q.open_queue)
    let num_items = batch_size max_results (length queue)
    modify (λ q. record q { open_queue = drop num_items queue })
    pure (take num_items queue)

  unfoldable pub get_nowait : Option ℕ → Method (ℕ × List T)
  unfolding take_open start_batch
  get_nowait max_results = do
    queue ← gets (λ q. q.open_queue)
    raise_if queue_full (is_nil queue)
    pending_tasks ← take_open max_results
    start_batch pending_tasks

  -- `none` is the wait for a first task.
  unfoldable pub get : Option ℕ → Method (Option (ℕ × List T))
  unfolding take_open start_batch
  get max_results = do
    raise_if validation_error (asks_nothing max_results)
    queue ← gets (λ q. q.open_queue)
    if is_nil queue then pure none else (do
      pending_tasks ← take_open max_results
      batch ← start_batch pending_tasks
      pure (some batch))

  -- `complete` up to the first task that goes back to the queue.
  unfoldable pub pop_batch : ℕ → List T → Method (List T)
  pop_batch batch_id completed = do
    attempted ← λ q. require validation_error (Dict.get ℕ_discrete q.in_progress batch_id) q
    modify (λ q. record q { in_progress = Dict.del ℕ_discrete q.in_progress batch_id })
    if not (is_nil (difference dec completed attempted))
        then (do
          modify
              (λ q. record q { in_progress = Dict.put ℕ_discrete q.in_progress batch_id attempted })
          raise validation_error)
        else pure (difference dec (members dec attempted) completed)

  -- `complete` after the last one.
  unfoldable pub finish_batch : List T → Method Unit
  unfolding release_if_room
  finish_batch completed = do
    modify (λ q. record q { tasks = difference dec q.tasks completed })
    release_if_room

  -- `complete` where no other call runs between its stages.
  unfoldable pub complete : ℕ → List T → Method Unit
  unfolding pop_batch put_open finish_batch
  complete batch_id completed = do
    incomplete ← pop_batch batch_id completed
    for_each put_open incomplete
    finish_batch completed

  abbrev pub num_in_progress : Queue T → ℕ
  num_in_progress q = length q.tasks - length q.open_queue

  abbrev pub num_pending : Queue T → ℕ
  num_pending q = length q.open_queue

  abbrev pub len : Queue T → ℕ
  len q = length q.tasks

  abbrev pub contains : Queue T → T → Bool
  contains q task = elem dec task q.tasks
