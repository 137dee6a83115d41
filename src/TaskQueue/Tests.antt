-- ===== src/TaskQueue/Tests.antt =====
-- A queue of at most two numbers, and the theorems at it.
use trinity.Prelude.{
  ℕ, ◌+◌, ◌<◌, ◌≤◌, ◌≡◌, refl, true, false, ◌&&◌, not, none, some, List, [], ◌∷◌, elem, length,
  take, drop, arith, ◌⊎◌, ℕ_discrete, leb, if◌then◌else◌,
}
use trinity.Prelude.Dict
use trinity.Prelude.Dict.{Dict}
use trinity.Prelude.Exec.{ok, err, for_each, validation_error, queue_full, would_wait}
use trinity.Prelude.Sorting.{TotalOrder}
use trinity.Preparation.Completion.{batch_size}
use trinity.TaskQueue.Queue.{
  Queue, new_queue, is_full, by_order, put_open, release_if_room, enqueue, wait_for_room, add_loop,
  add, resume_add, start_batch, take_open, get_nowait, get, pop_batch, finish_batch, complete,
}
use trinity.TaskQueue.Counts.{count, count_all, once}
use trinity.TaskQueue.Invariant.{IsConsistent}
use trinity.TaskQueue.Rounds.{Added}
use trinity.TaskQueue.Adding.{add_ends}
use trinity.TaskQueue.Batches.{AllBefore, batched, get_nowait_lem}
use trinity.TaskQueue.Completing.{complete_lem}
use trinity.TaskQueue.System.{
  System, awaited, held, added, resumed, got_nowait, began, Reachable, start, later,
}
use trinity.TaskQueue.Reachability.{Reachable-counts, Reachable-IsConsistent}

program : Unit {0}
unfolding for_each put_open release_if_room enqueue wait_for_room add_loop add resume_add
    start_batch take_open get_nowait get pop_batch finish_batch complete ℕ_discrete Dict.get
    Dict.put Dict.del
program = tt

leb_total : (a b : ℕ) → leb a b ≡ false → leb b a ≡ true
leb_total a b h = ground arith

leb_trans : (a b c : ℕ) → leb a b ≡ true → leb b c ≡ true → leb a c ≡ true
leb_trans a b c h k = ground arith

leb_antisym : (a b : ℕ) → leb a b ≡ true → leb b a ≡ true → a ≡ b
leb_antisym a b h k = ground arith

abbrev smallest_first : TotalOrder ℕ
smallest_first = record {
  before = leb;
  before_total = leb_total;
  before_trans = leb_trans;
  before_antisym = leb_antisym;
}

abbrev order_fn : ℕ → ℕ
order_fn n = n

abbrev full_queue : Queue ℕ
full_queue = (add ℕ_discrete smallest_first order_fn (7 ∷ 3 ∷ 5 ∷ []) (new_queue 2)).1

abbrev taken : Queue ℕ
taken = (get_nowait ℕ_discrete smallest_first order_fn (some 1) full_queue).1

fills_up : add ℕ_discrete smallest_first order_fn (7 ∷ 3 ∷ 5 ∷ []) (new_queue 2) ≡ (
  ok (7 ∷ []),
  record {
    maxsize = 2;
    full_lock = true;
    open_queue = 3 ∷ 5 ∷ [];
    next_id = 0;
    tasks = 3 ∷ 5 ∷ [];
    in_progress = [];
  },
)
unfolding program
fills_up = refl

most_urgent : (get_nowait ℕ_discrete smallest_first order_fn (some 1) full_queue).0 ≡ ok (0, 3 ∷ [])
unfolding program
most_urgent = refl

frees_lock : (complete ℕ_discrete smallest_first order_fn 0 (3 ∷ []) taken).1.full_lock ≡ false
unfolding program
frees_lock = refl

-- A task that stands twice in one call of `add` is pending twice.
repeated_task :
    (add ℕ_discrete smallest_first order_fn (4 ∷ 4 ∷ []) (new_queue 0)).1.open_queue ≡ 4 ∷ 4 ∷ []
unfolding program
repeated_task = refl

-- Two calls of `add` for the same task wait, and both queue it when they are woken.
abbrev with_queue : Queue ℕ → List ℕ → Queue ℕ
with_queue q remaining = (resume_add ℕ_discrete smallest_first order_fn remaining q).1

abbrev emptied : Queue ℕ
emptied =
    (complete ℕ_discrete smallest_first order_fn 0 (3 ∷ 5 ∷ [])
      (get_nowait ℕ_discrete smallest_first order_fn none full_queue).1).1

both_wait :
    ((add ℕ_discrete smallest_first order_fn (9 ∷ []) full_queue).0 ≡ ok (9 ∷ []))
    × ((with_queue (with_queue emptied (9 ∷ [])) (9 ∷ [])).open_queue ≡ 9 ∷ 9 ∷ [])
    × ((with_queue (with_queue emptied (9 ∷ [])) (9 ∷ [])).tasks ≡ 9 ∷ [])
unfolding program
both_wait = (refl, refl, refl)

-- One of the two is taken, another task comes in, and there is no room to put the first one back.
abbrev crowded : Queue ℕ
crowded =
    (add ℕ_discrete smallest_first order_fn (8 ∷ [])
      (get_nowait ℕ_discrete smallest_first order_fn (some 1)
        (with_queue (with_queue emptied (9 ∷ [])) (9 ∷ []))).1).1

no_room : (complete ℕ_discrete smallest_first order_fn 1 [] crowded).0 ≡ err would_wait
unfolding program
no_room = refl

-- A call of `add` waits with 7 left, a batch of 3 and 5 is out, and the call that completes 3 still
-- has to put 5 back.
abbrev filled : System ℕ
filled = record { queue = full_queue; waiting = (7 ∷ []) ∷ []; returning = [] }

abbrev lent : System ℕ
lent = record filled {
  queue = (get_nowait ℕ_discrete smallest_first order_fn (some 2) full_queue).1;
}

abbrev half_way : System ℕ
half_way = record lent {
  queue = (pop_batch ℕ_discrete smallest_first order_fn 0 (3 ∷ []) lent.queue).1;
  returning = (5 ∷ [], 3 ∷ []) ∷ [];
}

-- The waiting call is woken while 5 is still to be put back, and waits again.
abbrev woken : System ℕ
woken = record half_way {
  queue = (resume_add ℕ_discrete smallest_first order_fn (7 ∷ []) half_way.queue).1;
}

filled-Reachable : Reachable ℕ_discrete smallest_first order_fn filled
unfolding program
filled-Reachable = later (start 2) (added (7 ∷ 3 ∷ 5 ∷ []) (refl, (refl, (refl, tt))) (λ t h. refl))

woken-Reachable : Reachable ℕ_discrete smallest_first order_fn woken
unfolding program
woken-Reachable =
    later (later (later filled-Reachable (got_nowait (some 2))) (began 0 (3 ∷ [])))
      (resumed [] [] (7 ∷ []) refl)

waits_again : woken.queue.open_queue ≡ []
unfolding program
waits_again = refl

abbrev none_held : ℕ → ℕ
none_held t = 0

taken-Reachable :
    Reachable ℕ_discrete smallest_first order_fn
      (record { queue = taken; waiting = (7 ∷ []) ∷ []; returning = [] })
taken-Reachable = later filled-Reachable (got_nowait (some 1))

Reachable-counts_example :
    ((t : ℕ)
      → count ℕ_discrete t woken.queue.open_queue
          + count_all ℕ_discrete t woken.queue.in_progress
          + held ℕ_discrete woken.returning t
        ≡ once ℕ_discrete t woken.queue.tasks)
    × ((t : ℕ) → awaited ℕ_discrete t woken.waiting + once ℕ_discrete t woken.queue.tasks ≤ 1)
    × (length woken.queue.open_queue ≤ length woken.queue.tasks)
    × ((woken.queue.maxsize ≡ 0) ⊎ (length woken.queue.tasks ≤ woken.queue.maxsize))
    × ((t : ℕ)
        → (held ℕ_discrete woken.returning t ≡ 0)
          ⊎ (is_full ℕ_discrete smallest_first order_fn woken.queue ≡ false))
Reachable-counts_example = Reachable-counts ℕ_discrete smallest_first order_fn woken woken-Reachable

taken-IsConsistent : IsConsistent ℕ_discrete smallest_first order_fn none_held taken
taken-IsConsistent =
    Reachable-IsConsistent ℕ_discrete smallest_first order_fn
      (record { queue = taken; waiting = (7 ∷ []) ∷ []; returning = [] }) taken-Reachable

add_ends_example :
    (((t : ℕ) × (elem ℕ_discrete t (9 ∷ 8 ∷ []) ≡ true) × (elem ℕ_discrete t taken.tasks ≡ true))
      × (add ℕ_discrete smallest_first order_fn (9 ∷ 8 ∷ []) taken ≡ (err validation_error, taken)))
    ⊎ (((t : ℕ) → elem ℕ_discrete t (9 ∷ 8 ∷ []) ≡ true → elem ℕ_discrete t taken.tasks ≡ false)
        × (left : List ℕ) × (after : Queue ℕ) × (add ℕ_discrete smallest_first order_fn
              (9 ∷ 8 ∷ [])
              taken
            ≡ (ok left, after))
        × Added ℕ_discrete smallest_first order_fn none_held (9 ∷ 8 ∷ []) taken left after)
unfolding ℕ_discrete
add_ends_example =
    add_ends ℕ_discrete smallest_first order_fn none_held (9 ∷ 8 ∷ []) taken taken-IsConsistent
      (refl, (refl, tt))

get_nowait_example :
    ((taken.open_queue ≡ [])
      × (get_nowait ℕ_discrete smallest_first order_fn none taken ≡ (err queue_full, taken)))
    ⊎ ((n : ℕ) × (0 < length taken.open_queue)
        × (n ≡ batch_size none (length taken.open_queue))
        × (get_nowait ℕ_discrete smallest_first order_fn none taken ≡ (
          ok (taken.next_id, take n taken.open_queue),
          batched ℕ_discrete smallest_first order_fn none_held n taken,
        ))
        × IsConsistent ℕ_discrete smallest_first order_fn none_held
            (batched ℕ_discrete smallest_first order_fn none_held n taken)
        × (Dict.get ℕ_discrete taken.in_progress taken.next_id ≡ none)
        × AllBefore
            (by_order ℕ_discrete smallest_first order_fn)
            (take n taken.open_queue)
            (drop n taken.open_queue))
get_nowait_example =
    get_nowait_lem ℕ_discrete smallest_first order_fn none_held none taken taken-IsConsistent

complete_example :
    ((Dict.get ℕ_discrete taken.in_progress 0 ≡ none)
      × (complete ℕ_discrete smallest_first order_fn 0 (3 ∷ []) taken
          ≡ (err validation_error, taken)))
    ⊎ ((attempted : List ℕ) × (Dict.get ℕ_discrete taken.in_progress 0 ≡ some attempted)
        × (((t : ℕ) × (elem ℕ_discrete t (3 ∷ []) ≡ true)
              × (elem ℕ_discrete t attempted ≡ false)
              × (batches : Dict ℕ (List ℕ)) × (complete ℕ_discrete smallest_first order_fn 0
                    (3 ∷ [])
                    taken
                  ≡ (err validation_error, record taken { in_progress = batches }))
              × IsConsistent ℕ_discrete smallest_first order_fn none_held
                  (record taken { in_progress = batches })
              × ((j : ℕ) → Dict.get ℕ_discrete batches j ≡ Dict.get ℕ_discrete taken.in_progress j))
            ⊎ ((after : Queue ℕ) × ((t : ℕ)
                  → elem ℕ_discrete t (3 ∷ []) ≡ true
                  → elem ℕ_discrete t attempted ≡ true)
                × (complete ℕ_discrete smallest_first order_fn 0 (3 ∷ []) taken ≡ (ok tt, after))
                × IsConsistent ℕ_discrete smallest_first order_fn none_held after
                × (Dict.get ℕ_discrete after.in_progress 0 ≡ none)
                × ((t : ℕ)
                    → elem ℕ_discrete t after.tasks
                      ≡ (elem ℕ_discrete t taken.tasks && not (elem ℕ_discrete t (3 ∷ []))))
                × ((t : ℕ)
                    → count ℕ_discrete t after.open_queue
                      ≡ count ℕ_discrete t taken.open_queue
                        + (if elem ℕ_discrete t attempted && not (elem ℕ_discrete t (3 ∷ []))
                            then 1
                            else 0)))))
complete_example =
    complete_lem ℕ_discrete smallest_first order_fn none_held 0 (3 ∷ []) taken taken-IsConsistent
