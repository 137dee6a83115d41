-- ===== src/TaskQueue/System.antt =====
-- Calls of `TaskQueue` that run between each other. A call of `add` gives the event loop up where
-- it waits for the lock, and `complete` after every task that it puts back.
use trinity.Prelude.{ℕ, ◌+◌, ◌≡◌, true, Option, List, [], ◌∷◌, ◌++◌, elem, Distinct}
use trinity.Prelude.Exec.{Result, ok, err}
use trinity.Prelude.Sorting.{TotalOrder}
use trinity.TaskQueue.Queue.{
  Queue, new_queue, put_open, add, resume_add, get, get_nowait, pop_batch, finish_batch,
}
use trinity.TaskQueue.Counts.{count, once}

-- The queue, what each waiting call of `add` has left, and for each call of `complete` that goes on
-- the tasks that it still has to put back, with those that are completed.
pub record System (T : Type 0) : Type 0 where
  pub queue : Queue T
  pub waiting : List (List T)
  pub returning : List (List T × List T)

-- A call of `add` waits where it has something left.
abbrev pub left_over : {T : Type 0} → Result (List T) → List (List T)
left_over (err e) = []
left_over (ok []) = []
left_over (ok (t ∷ ts)) = (t ∷ ts) ∷ []

-- A call of `complete` goes on unless it raises.
abbrev pub begun :
    {T : Type 0} → List T → Result (List T) → List (List T × List T) → List (List T × List T)
begun completed (err e) calls = calls
begun completed (ok incomplete) calls = (incomplete, completed) ∷ calls

-- It still has a task that was not put back.
abbrev pub not_put : {T : Type 0} → Result {0} Unit → T → List T → List T
not_put (err e) t left = t ∷ left
not_put (ok u) t left = left

module _ {T : Type 0} (dec : Discrete T) where
  -- How often a task is left to the waiting calls of `add`.
  abbrev pub awaited : T → List (List T) → ℕ
  awaited t [] = 0
  awaited t (w ∷ ws) = count dec t w + awaited t ws

  -- How often calls of `complete` have it, to put it back or to remove it.
  abbrev pub held : List (List T × List T) → T → ℕ
  held [] t = 0
  held (call ∷ calls) t = count dec t call.0 + once dec t call.1 + held calls t

module _ {T O : Type 0} (dec : Discrete T) (order : TotalOrder O) (order_fn : T → O) where
  -- Calls may raise or wait. The tasks of a call of `add` are different, and none is left to another
  -- call of `add`. A waiting call may be woken at any time, with no more known of what it has left.
  pub data Step (s : System T) : System T → Type 0 where
    added :
        (tasks : List T)
        → Distinct dec tasks
        → ((t : T) → elem dec t tasks ≡ true → awaited dec t s.waiting ≡ 0)
        → Step s (record s {
          queue = (add dec order order_fn tasks s.queue).1;
          waiting = left_over (add dec order order_fn tasks s.queue).0 ++ s.waiting;
        })
    resumed :
        (ws vs : List (List T)) (remaining : List T)
        → s.waiting ≡ ws ++ remaining ∷ vs
        → Step s (record s {
          queue = (resume_add dec order order_fn remaining s.queue).1;
          waiting = ws ++ (left_over (resume_add dec order order_fn remaining s.queue).0 ++ vs);
        })
    got_nowait :
        (max_results : Option ℕ)
        → Step s (record s { queue = (get_nowait dec order order_fn max_results s.queue).1 })
    got :
        (max_results : Option ℕ)
        → Step s (record s { queue = (get dec order order_fn max_results s.queue).1 })
    began :
        (batch_id : ℕ) (completed : List T)
        → Step s (record s {
          queue = (pop_batch dec order order_fn batch_id completed s.queue).1;
          returning =
              begun completed
                (pop_batch dec order order_fn batch_id completed s.queue).0
                s.returning;
        })
    put_back :
        (cs ds : List (List T × List T)) (t : T) (left completed : List T)
        → s.returning ≡ cs ++ (t ∷ left, completed) ∷ ds
        → Step s (record s {
          queue = (put_open dec order order_fn t s.queue).1;
          returning =
              cs ++ (not_put (put_open dec order order_fn t s.queue).0 t left, completed) ∷ ds;
        })
    finished :
        (cs ds : List (List T × List T)) (completed : List T)
        → s.returning ≡ cs ++ ([], completed) ∷ ds
        → Step s (record s {
          queue = (finish_batch dec order order_fn completed s.queue).1;
          returning = cs ++ ds;
        })

  abbrev pub initial : ℕ → System T
  initial maxsize = record { queue = new_queue maxsize; waiting = []; returning = [] }

  pub data Reachable : System T → Type 0 where
    start : (maxsize : ℕ) → Reachable (initial maxsize)
    later : {s u : System T} → Reachable s → Step s u → Reachable u
