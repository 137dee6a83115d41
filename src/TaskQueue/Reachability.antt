-- ===== src/TaskQueue/Reachability.antt =====
-- The states that the calls of a queue lead to, in any order and between each other.
use trinity.Prelude.{◌+◌, ◌≤◌, ◌≡◌, false, length, arith, ◌⊎◌, inl, inr, dec_lt}
use trinity.Prelude.Sorting.{TotalOrder}
use trinity.TaskQueue.Queue.{is_full}
use trinity.TaskQueue.Counts.{count, count_all, once}
use trinity.TaskQueue.Invariant.{IsConsistent, pending_le}
use trinity.TaskQueue.Stages.{room_for_held}
use trinity.TaskQueue.System.{System, awaited, held, Reachable, start, later}
use trinity.TaskQueue.Validity.{IsValid, initial-IsValid, Step-IsValid}

module _ {T O : Type 0} (dec : Discrete T) (order : TotalOrder O) (order_fn : T → O) where
  Reachable-IsValid : {s : System T} → Reachable dec order order_fn s → IsValid dec order order_fn s
  Reachable-IsValid (start maxsize) = initial-IsValid dec order order_fn maxsize
  Reachable-IsValid (later r step) = Step-IsValid dec order order_fn step (Reachable-IsValid r)

  pub Reachable-IsConsistent :
      (s : System T)
      → Reachable dec order order_fn s
      → IsConsistent dec order order_fn (held dec s.returning) s.queue
  Reachable-IsConsistent s r = (Reachable-IsValid r).consistent

  -- Calls of add, get, get_nowait and complete run in any order, also where they raise or wait, and
  -- others run while a call of add waits and between the tasks that a call of complete puts back.
  -- Each call of add has different tasks, and none that a waiting call of add has left. Then in every
  -- state: a task of the queue is, once, either pending, or in one batch, or still to be put back
  -- or removed by a call of complete; no other task is; what waiting calls of add have left is not
  -- in the queue, and with no two of them; the queue holds at most maxsize tasks, of which no more
  -- are pending; and where a call of complete still has a task there is room to put it back.
  pub Reachable-counts :
      (s : System T)
      → Reachable dec order order_fn s
      → ((t : T)
          → count dec t s.queue.open_queue
              + count_all dec t s.queue.in_progress
              + held dec s.returning t
            ≡ once dec t s.queue.tasks)
        × ((t : T) → awaited dec t s.waiting + once dec t s.queue.tasks ≤ 1)
        × (length s.queue.open_queue ≤ length s.queue.tasks)
        × ((s.queue.maxsize ≡ 0) ⊎ (length s.queue.tasks ≤ s.queue.maxsize))
        × ((t : T) → (held dec s.returning t ≡ 0) ⊎ (is_full dec order order_fn s.queue ≡ false))
  Reachable-counts s r =
      let v = Reachable-IsValid r in
      let hold = held dec s.returning in
      let c = v.consistent in
      (
        c.counted,
        v.apart,
        pending_le dec order order_fn hold s.queue c,
        elim (dec_lt 0 s.queue.maxsize) [ yes p ↦ inr (c.bounded p) | no n ↦ inl (omega arith) ],
        λ t. elim (dec_lt 0 (hold t)) [
          | yes p ↦ inr (room_for_held dec order order_fn hold s.queue t c p)
          | no n ↦ inl (omega arith)
        ],
      )
