-- ===== src/TaskQueue/Batches.antt =====
-- `get_nowait`, `get` and `complete`: batches of tasks that are taken and given back.
use trinity.Prelude.{
  ℕ, zero, suc, ◌<◌, ◌≡◌, refl, Bool, false, Option, none, some, List, [], ◌∷◌, ◌++◌, elem, length,
  Distinct, take, drop, arith, ◌⊎◌, inl, inr, List-cases, append_end-Distinct, ℕ_discrete,
}
use trinity.Prelude.Bytes.{AllBelow}
use trinity.Prelude.Dict
use trinity.Prelude.Dict.{Dict}
use trinity.Prelude.Exec.{ok, err, queue_full}
use trinity.Prelude.Sorting.{TotalOrder, IsSorted, AllAfter}
use trinity.Preparation.Completion.{batch_size}
use trinity.TaskQueue.Queue.{Queue, by_order, start_batch, take_open, get_nowait}
use trinity.TaskQueue.Counts.{count-take-drop, keys, count_all-put}
use trinity.TaskQueue.Invariant.{IsConsistent}

module _ {A : Type 0} (le : A → A → Bool) where
  drop-IsSorted : (n : ℕ) (xs : List A) → IsSorted le xs → IsSorted le (drop n xs)
  drop-IsSorted zero xs s = s
  drop-IsSorted (suc n) [] s = tt
  drop-IsSorted (suc n) (x ∷ xs) s = drop-IsSorted n xs s.1

  drop-AllAfter : (x : A) (n : ℕ) (xs : List A) → AllAfter le x xs → AllAfter le x (drop n xs)
  drop-AllAfter x zero xs a = a
  drop-AllAfter x (suc n) [] a = tt
  drop-AllAfter x (suc n) (y ∷ ys) a = drop-AllAfter x n ys a.1

  -- Everything of the first list is before everything of the second.
  abbrev pub AllBefore : List A → List A → Type 0
  AllBefore [] ys = Unit
  AllBefore (x ∷ xs) ys = AllAfter le x ys × AllBefore xs ys

  take-AllBefore-drop : (n : ℕ) (xs : List A) → IsSorted le xs → AllBefore (take n xs) (drop n xs)
  take-AllBefore-drop zero xs s = tt
  take-AllBefore-drop (suc n) [] s = tt
  take-AllBefore-drop (suc n) (x ∷ xs) s = (drop-AllAfter x n xs s.0, take-AllBefore-drop n xs s.1)

module _ {T : Type 0} (dec : Discrete T) where
  above_keys :
      (n : ℕ) (d : Dict ℕ (List T))
      → AllBelow n (keys dec d)
      → (elem ℕ_discrete n (keys dec d) ≡ false) × (Dict.get ℕ_discrete d n ≡ none)
  unfolding Dict.get
  above_keys n [] b = (refl, refl)
  above_keys n (e ∷ d) b = ground (arith, above_keys n d)

  pub keys-put_new :
      (n : ℕ) (v : List T) (d : Dict ℕ (List T))
      → elem ℕ_discrete n (keys dec d) ≡ false
      → keys dec (Dict.put ℕ_discrete d n v) ≡ keys dec d ++ n ∷ []
  unfolding Dict.put
  keys-put_new n v [] b = refl
  keys-put_new n v (e ∷ d) b = ground (arith, keys-put_new n v d)

  pub key_below :
      (n k : ℕ) (v : List T) (d : Dict ℕ (List T))
      → AllBelow n (keys dec d)
      → Dict.get ℕ_discrete d k ≡ some v
      → k < n
  unfolding Dict.get
  key_below n k v [] b h = absurd (ground arith)
  key_below n k v (e ∷ d) b h = ground (arith, key_below n k v d)

  pub elem-keys-del_self :
      (k : ℕ) (d : Dict ℕ (List T)) → elem ℕ_discrete k (keys dec (Dict.del ℕ_discrete d k)) ≡ false
  unfolding Dict.del
  elem-keys-del_self k [] = refl
  elem-keys-del_self k (e ∷ d) = ground (arith, elem-keys-del_self k d)

  AllBelow-suc : (n : ℕ) (ks : List ℕ) → AllBelow n ks → AllBelow (suc n) (ks ++ n ∷ [])
  AllBelow-suc n [] b = (omega arith, tt)
  AllBelow-suc n (k ∷ ks) b = (omega (arith, b.0), AllBelow-suc n ks b.1)

  pub elem-keys-del :
      (k j : ℕ) (d : Dict ℕ (List T))
      → elem ℕ_discrete j (keys dec d) ≡ false
      → elem ℕ_discrete j (keys dec (Dict.del ℕ_discrete d k)) ≡ false
  unfolding Dict.del
  elem-keys-del k j [] h = refl
  elem-keys-del k j (e ∷ d) h = ground (arith, elem-keys-del k j d)

  pub del-Distinct :
      (k : ℕ) (d : Dict ℕ (List T))
      → Distinct ℕ_discrete (keys dec d)
      → Distinct ℕ_discrete (keys dec (Dict.del ℕ_discrete d k))
  unfolding Dict.del
  del-Distinct k [] h = tt
  del-Distinct k (e ∷ d) h = ground (arith, del-Distinct k d, elem-keys-del k e.0 d)

  pub del-AllBelow :
      (n k : ℕ) (d : Dict ℕ (List T))
      → AllBelow n (keys dec d)
      → AllBelow n (keys dec (Dict.del ℕ_discrete d k))
  unfolding Dict.del
  del-AllBelow n k [] h = tt
  del-AllBelow n k (e ∷ d) h = ground (arith, del-AllBelow n k d)

module _ {T O : Type 0} (dec : Discrete T) (order : TotalOrder O) (order_fn : T → O)
    (held : T → ℕ) where
  -- The state after the first `n` open tasks became a batch.
  abbrev pub batched : ℕ → Queue T → Queue T
  batched n q = record q {
    next_id = suc q.next_id;
    open_queue = drop n q.open_queue;
    in_progress = Dict.put ℕ_discrete q.in_progress q.next_id (take n q.open_queue);
  }

  pub batched-IsConsistent :
      (n : ℕ) (q : Queue T)
      → IsConsistent dec order order_fn held q
      → IsConsistent dec order order_fn held (batched n q)
  batched-IsConsistent n q c =
      let (absent, new) = above_keys dec q.next_id q.in_progress c.below in
      let batch = take n q.open_queue in
      record {
        counted = λ t. omega (
          arith,
          c.counted t,
          count-take-drop dec t n q.open_queue,
          count_all-put dec t q.in_progress q.next_id batch new,
        );
        distinct = c.distinct;
        sorted = drop-IsSorted (by_order dec order order_fn) n q.open_queue c.sorted;
        bounded = c.bounded;
        numbered =
            rw (keys-put_new dec q.next_id batch q.in_progress absent)
              (append_end-Distinct ℕ_discrete q.next_id (keys dec q.in_progress) c.numbered absent);
        below =
            rw (keys-put_new dec q.next_id batch q.in_progress absent)
              (AllBelow-suc dec q.next_id (keys dec q.in_progress) c.below);
      }

  -- get_nowait raises QueueFull exactly on an empty queue. On any other it keeps the invariant, and
  -- its batch of a new number has the first max_results pending tasks, or all: none that stays is more
  -- urgent.
  pub get_nowait_lem :
      (max_results : Option ℕ) (q : Queue T)
      → IsConsistent dec order order_fn held q
      → ((q.open_queue ≡ []) × (get_nowait dec order order_fn max_results q ≡ (err queue_full, q)))
        ⊎ ((n : ℕ) × (0 < length q.open_queue)
            × (n ≡ batch_size max_results (length q.open_queue))
            × (get_nowait dec order order_fn max_results q
                ≡ (ok (q.next_id, take n q.open_queue), batched n q))
            × IsConsistent dec order order_fn held (batched n q)
            × (Dict.get ℕ_discrete q.in_progress q.next_id ≡ none)
            × AllBefore (by_order dec order order_fn) (take n q.open_queue) (drop n q.open_queue))
  unfolding get_nowait take_open start_batch
  get_nowait_lem max_results q c = elim (List-cases q.open_queue) [
    | inl e ↦ inl (e, simp e refl)
    | inr (t, ts, e) ↦
        let n = batch_size max_results (length q.open_queue) in
        inr (
          n,
          ground arith,
          refl,
          simp e refl,
          batched-IsConsistent n q c,
          (above_keys dec q.next_id q.in_progress c.below).1,
          take-AllBefore-drop (by_order dec order order_fn) n q.open_queue c.sorted,
        )
  ]
