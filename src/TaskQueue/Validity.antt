-- ===== src/TaskQueue/Validity.antt =====
-- Every call keeps what the calls and the queue keep to each other.
use trinity.Prelude.{
  ℕ, ◌+◌, ◌<◌, ◌≤◌, ◌≡◌, ◌∙◌, refl, sym, ap, subst, true, Option, List, [], ◌∷◌, ◌++◌, elem, length,
  Distinct, arith, ◌⊎◌, inl, inr, List-cases, Bool-cases, Option-cases, ℕ_discrete,
}
use trinity.Prelude.Dict
use trinity.Prelude.Exec.{Result, ok}
use trinity.Prelude.Sorting.{TotalOrder}
use trinity.Preparation.Completion.{batch_size, asks_nothing, difference, is_nil}
use trinity.TaskQueue.Queue.{
  Queue, put_open, add, resume_add, get, get_nowait, take_open, start_batch, pop_batch,
  finish_batch, release_if_room,
}
use trinity.TaskQueue.Counts.{count, once, count-Distinct, elem-difference, Within-if_nil}
use trinity.TaskQueue.Invariant.{IsConsistent}
use trinity.TaskQueue.Adding.{add_ends, resume_add_ends}
use trinity.TaskQueue.Batches.{batched, batched-IsConsistent, get_nowait_lem}
use trinity.TaskQueue.Settling.{refused-IsConsistent}
use trinity.TaskQueue.Stages.{
  pop_lem, pop_refused, popped-IsConsistent, pop_none, room_for_held, put_open_lem,
  with_open-IsConsistent, finish-IsConsistent,
}
use trinity.TaskQueue.System.{
  System, left_over, begun, not_put, awaited, held, Step, added, resumed, got_nowait, got, began,
  put_back, finished, initial,
}

module _ {T : Type 0} (dec : Discrete T) where
  awaited-append :
      (t : T) (ws vs : List (List T))
      → awaited dec t (ws ++ vs) ≡ awaited dec t ws + awaited dec t vs
  awaited-append t [] vs = omega arith
  awaited-append t (w ∷ ws) vs = omega (arith, awaited-append t ws vs)

  awaited-left_over :
      (t : T) (left : List T) (vs : List (List T))
      → awaited dec t (left_over (ok left) ++ vs) ≡ count dec t left + awaited dec t vs
  awaited-left_over t [] vs = omega arith
  awaited-left_over t (x ∷ xs) vs = refl

  held-append :
      (t : T) (cs ds : List (List T × List T))
      → held dec (cs ++ ds) t ≡ held dec cs t + held dec ds t
  held-append t [] ds = omega arith
  held-append t (c ∷ cs) ds = omega (arith, held-append t cs ds)

  held_one :
      (t : T) (cs ds : List (List T × List T)) (x : T) (left completed : List T)
      → held dec (cs ++ (x ∷ left, completed) ∷ ds) t
        ≡ count dec t (x ∷ []) + held dec (cs ++ (left, completed) ∷ ds) t
  held_one t cs ds x left completed = ground (
    arith,
    held-append t cs ((x ∷ left, completed) ∷ ds),
    held-append t cs ((left, completed) ∷ ds),
  )

  held_completed :
      (t : T) (cs ds : List (List T × List T)) (completed : List T)
      → held dec (cs ++ ([], completed) ∷ ds) t ≡ once dec t completed + held dec (cs ++ ds) t
  held_completed t cs ds completed =
      omega (arith, held-append t cs (([], completed) ∷ ds), held-append t cs ds)

module _ {T O : Type 0} (dec : Discrete T) (order : TotalOrder O) (order_fn : T → O) where
  -- What is left to a waiting call of `add` is in no other one and not in the queue.
  pub record IsValid (s : System T) : Type 0 where
    pub consistent : IsConsistent dec order order_fn (held dec s.returning) s.queue
    pub apart : (t : T) → awaited dec t s.waiting + once dec t s.queue.tasks ≤ 1

  pub initial-IsValid : (maxsize : ℕ) → IsValid (initial dec order order_fn maxsize)
  initial-IsValid maxsize = record {
    consistent = record {
      counted = λ t. refl;
      distinct = tt;
      sorted = tt;
      bounded = λ p. omega arith;
      numbered = tt;
      below = tt;
    };
    apart = λ t. omega arith;
  }

  -- The system after an outcome of a call.
  abbrev with_waiting :
      System T → List (List T) → List (List T) → Result (List T) × Queue T → System T
  with_waiting s ws vs outcome = record s {
    queue = outcome.1;
    waiting = ws ++ (left_over outcome.0 ++ vs);
  }

  abbrev with_returning : System T → List T → Result (List T) × Queue T → System T
  with_returning s completed outcome = record s {
    queue = outcome.1;
    returning = begun completed outcome.0 s.returning;
  }

  added-IsValid :
      (s : System T) (tasks : List T)
      → Distinct dec tasks
      → ((t : T) → elem dec t tasks ≡ true → awaited dec t s.waiting ≡ 0)
      → IsValid s
      → IsValid (with_waiting s [] s.waiting (add dec order order_fn tasks s.queue))
  added-IsValid s tasks d h v =
      elim (add_ends dec order order_fn (held dec s.returning) tasks s.queue v.consistent d) [
        | inl (there, e) ↦ subst (λ o. IsValid (with_waiting s [] s.waiting o)) (sym e) v
        | inr (new, left, after, e, a) ↦
            subst (λ o. IsValid (with_waiting s [] s.waiting o)) (sym e)
              (record {
                consistent = a.consistent;
                apart = λ t. ground (
                  arith,
                  a.kept t,
                  v.apart t,
                  h t,
                  new t,
                  count-Distinct dec t tasks d,
                  awaited-left_over dec t left s.waiting,
                );
              })
      ]

  resumed-IsValid :
      (s : System T) (ws vs : List (List T)) (remaining : List T)
      → s.waiting ≡ ws ++ remaining ∷ vs
      → IsValid s
      → IsValid (with_waiting s ws vs (resume_add dec order order_fn remaining s.queue))
  resumed-IsValid s ws vs remaining w v =
      let all = λ (t : T). ap (awaited dec t) w ∙ awaited-append dec t ws (remaining ∷ vs) in
      let (left, after, e, a) =
        resume_add_ends dec order order_fn (held dec s.returning) remaining s.queue v.consistent
          (λ t. omega (arith, v.apart t, all t)) in
      subst (λ o. IsValid (with_waiting s ws vs o)) (sym e)
        (record {
          consistent = a.consistent;
          apart = λ t. omega (
            arith,
            a.kept t,
            v.apart t,
            all t,
            awaited-append dec t ws (left_over (ok left) ++ vs),
            awaited-left_over dec t left vs,
          );
        })

  -- A call that only takes a batch.
  batched-IsValid :
      (s : System T) (n : ℕ)
      → IsValid s
      → IsValid (record s { queue = batched dec order order_fn (held dec s.returning) n s.queue })
  batched-IsValid s n v = record {
    consistent =
        batched-IsConsistent dec order order_fn (held dec s.returning) n s.queue v.consistent;
    apart = v.apart;
  }

  got_nowait-IsValid :
      (s : System T) (max_results : Option ℕ)
      → IsValid s
      → IsValid (record s { queue = (get_nowait dec order order_fn max_results s.queue).1 })
  got_nowait-IsValid s max_results v =
      elim (get_nowait_lem dec order order_fn (held dec s.returning) max_results s.queue
        v.consistent) [
          | inl (m, e) ↦ subst (λ o. IsValid (record s { queue = o.1 })) (sym e) v
          | inr (n, some_, m, e, c, new, first) ↦
              subst (λ o. IsValid (record s { queue = o.1 })) (sym e) (batched-IsValid s n v)
        ]

  get_nil :
      (max_results : Option ℕ) (q : Queue T)
      → ((get dec order order_fn max_results q).1 ≡ q)
        ⊎ ((n : ℕ) × ((get dec order order_fn max_results q).1
              ≡ batched dec order order_fn (λ t. 0) n q))
  unfolding get take_open start_batch
  get_nil max_results q = elim (Bool-cases (asks_nothing max_results)) [
    | inl e ↦ inl (rw e refl)
    | inr e ↦ elim (List-cases q.open_queue) [
      | inl n ↦ inl (simp (e, n) refl)
      | inr (t, ts, n) ↦ inr (batch_size max_results (length q.open_queue), simp (e, n) refl)
    ]
  ]

  got-IsValid :
      (s : System T) (max_results : Option ℕ)
      → IsValid s
      → IsValid (record s { queue = (get dec order order_fn max_results s.queue).1 })
  got-IsValid s max_results v = elim (get_nil max_results s.queue) [
    | inl e ↦ subst (λ q. IsValid (record s { queue = q })) (sym e) v
    | inr (n, e) ↦ subst (λ q. IsValid (record s { queue = q })) (sym e) (batched-IsValid s n v)
  ]

  began-IsValid :
      (s : System T) (batch_id : ℕ) (completed : List T)
      → IsValid s
      → IsValid
          (with_returning s completed (pop_batch dec order order_fn batch_id completed s.queue))
  began-IsValid s batch_id completed v =
      let hold = held dec s.returning in
      let q = s.queue in
      elim (Option-cases (Dict.get ℕ_discrete q.in_progress batch_id)) [
        | inl n ↦
            subst (λ o. IsValid (with_returning s completed o))
              (sym (pop_none dec order order_fn hold q batch_id completed n)) v
        | inr (attempted, found) ↦ elim (Bool-cases (is_nil (difference dec completed attempted))) [
          | inl e ↦
              subst (λ o. IsValid (with_returning s completed o))
                (sym (
                  pop_lem dec order order_fn hold q v.consistent batch_id attempted completed found
                    e))
                (record {
                  consistent =
                      popped-IsConsistent dec order order_fn hold q v.consistent batch_id attempted
                        completed found (Within-if_nil dec completed attempted e);
                  apart = v.apart;
                })
          | inr e ↦
              subst (λ o. IsValid (with_returning s completed o))
                (sym (
                  pop_refused dec order order_fn hold q v.consistent batch_id attempted completed
                    found e))
                (record {
                  consistent =
                      refused-IsConsistent dec order order_fn hold q v.consistent batch_id attempted
                        completed found;
                  apart = v.apart;
                })
        ]
      ]

  -- A task that a call of `complete` puts back never waits.
  put_back-IsValid :
      (s : System T) (cs ds : List (List T × List T)) (t : T) (left completed : List T)
      → s.returning ≡ cs ++ (t ∷ left, completed) ∷ ds
      → IsValid s
      → IsValid (record s {
        queue = (put_open dec order order_fn t s.queue).1;
        returning =
            cs ++ (not_put (put_open dec order order_fn t s.queue).0 t left, completed) ∷ ds;
      })
  put_back-IsValid s cs ds t left completed e v =
      let less = λ (x : T). ap (λ r. held dec r x) e ∙ held_one dec x cs ds t left completed in
      let hold = held dec s.returning in
      let mine : 0 < hold t = ground (arith, less t) in
      let room = room_for_held dec order order_fn hold s.queue t v.consistent mine in
      subst
        (λ o.
          IsValid
            (record s { queue = o.1; returning = cs ++ (not_put o.0 t left, completed) ∷ ds }))
        (sym (put_open_lem dec order order_fn hold s.queue t room))
        (record {
          consistent =
              with_open-IsConsistent dec order order_fn hold
                (held dec (cs ++ (left, completed) ∷ ds)) s.queue t v.consistent less;
          apart = v.apart;
        })

  finished-IsValid :
      (s : System T) (cs ds : List (List T × List T)) (completed : List T)
      → s.returning ≡ cs ++ ([], completed) ∷ ds
      → IsValid s
      → IsValid (record s {
        queue = (finish_batch dec order order_fn completed s.queue).1;
        returning = cs ++ ds;
      })
  unfolding finish_batch release_if_room
  finished-IsValid s cs ds completed e v = record {
    consistent =
        finish-IsConsistent dec order order_fn (held dec s.returning) (held dec (cs ++ ds)) s.queue
          completed v.consistent
          (λ x. ap (λ r. held dec r x) e ∙ held_completed dec x cs ds completed);
    apart = λ t. ground (arith, v.apart t, elem-difference dec t s.queue.tasks completed);
  }

  pub Step-IsValid : {s u : System T} → Step dec order order_fn s u → IsValid s → IsValid u
  Step-IsValid {s} (added tasks d h) v = added-IsValid s tasks d h v
  Step-IsValid {s} (resumed ws vs remaining e) v = resumed-IsValid s ws vs remaining e v
  Step-IsValid {s} (got_nowait max_results) v = got_nowait-IsValid s max_results v
  Step-IsValid {s} (got max_results) v = got-IsValid s max_results v
  Step-IsValid {s} (began batch_id completed) v = began-IsValid s batch_id completed v
  Step-IsValid {s} (put_back cs ds t left completed e) v =
      put_back-IsValid s cs ds t left completed e v
  Step-IsValid {s} (finished cs ds completed e) v = finished-IsValid s cs ds completed e v
