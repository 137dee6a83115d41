-- ===== src/Kademlia/Slots.antt =====
-- One bucket of the routing table with its replacement cache, and what the methods do to them.
use trinity.Prelude.{
  ℕ, zero, suc, ◌≤◌, ◌<◌, ◌≡◌, refl, ap, ◌⊎◌, inl, inr, true, false, Bool-cases, List, [], ◌∷◌,
  ◌++◌, arith, length, length-append, take, elem, remove, Distinct, ℕ_discrete, elem-remove,
  remove-Distinct, length-remove, elem-append_end, append_end-Distinct,
}
use trinity.Kademlia.{NodeId, append_left, append_right, vacated, replace_removed}
use trinity.Kademlia.Distance.{index_of}

-- Every node of the list belongs into the bucket `i`.
abbrev pub Placed : NodeId → ℕ → List NodeId → Type 0
Placed center i [] = Unit
Placed center i (x ∷ xs) = (index_of center x ≡ i) × Placed center i xs

-- No node of the first list is in the second.
abbrev pub Apart : List NodeId → List NodeId → Type 0
Apart [] ys = Unit
Apart (x ∷ xs) ys = (elem ℕ_discrete x ys ≡ false) × Apart xs ys

-- A replacement waits only behind a full bucket.
abbrev pub FullIfWaiting : ℕ → List NodeId → List NodeId → Type 0
FullIfWaiting size bucket [] = Unit
FullIfWaiting size bucket (x ∷ cache) = size ≤ length bucket

pub record IsSlot (center : NodeId) (size i : ℕ) (bucket cache : List NodeId) : Type 0 where
  pub fits : length bucket ≤ size
  pub bucket_distinct : Distinct ℕ_discrete bucket
  pub cache_distinct : Distinct ℕ_discrete cache
  pub bucket_placed : Placed center i bucket
  pub cache_placed : Placed center i cache
  pub apart : Apart bucket cache
  pub full_if_waiting : FullIfWaiting size bucket cache

pub empty-IsSlot : (center : NodeId) (size i : ℕ) → IsSlot center size i [] []
empty-IsSlot center size i = record {
  fits = omega arith;
  bucket_distinct = tt;
  cache_distinct = tt;
  bucket_placed = tt;
  cache_placed = tt;
  apart = tt;
  full_if_waiting = tt;
}

take_all : (n : ℕ) (xs : List NodeId) → length xs ≤ n → take n xs ≡ xs
take_all zero [] h = refl
take_all zero (x ∷ xs) h = absurd (omega arith)
take_all (suc n) [] h = refl
take_all (suc n) (x ∷ xs) h = ap (◌∷◌ x) (take_all n xs (omega arith))

length-remove-le : (x : NodeId) (xs : List NodeId) → length (remove ℕ_discrete x xs) ≤ length xs
length-remove-le x [] = omega arith
length-remove-le x (y ∷ ys) = ground (arith, length-remove-le x ys)

module _ (center : NodeId) (i : ℕ) where
  remove-Placed :
      (x : NodeId) (xs : List NodeId)
      → Placed center i xs
      → Placed center i (remove ℕ_discrete x xs)
  remove-Placed x [] h = tt
  remove-Placed x (y ∷ ys) h = ground (arith, remove-Placed x ys)

  append-Placed :
      (x : NodeId) (xs : List NodeId)
      → index_of center x ≡ i
      → Placed center i xs
      → Placed center i (xs ++ x ∷ [])
  append-Placed x [] e h = (e, tt)
  append-Placed x (y ∷ ys) e h = (h.0, append-Placed x ys e h.1)

Apart-remove_right :
    (x : NodeId) (xs ys : List NodeId)
    → Distinct ℕ_discrete ys
    → Apart xs ys
    → Apart xs (remove ℕ_discrete x ys)
Apart-remove_right x [] ys d h = tt
Apart-remove_right x (z ∷ zs) ys d h =
    ground (arith, Apart-remove_right x zs ys d, elem-remove ℕ_discrete x z ys d)

Apart-remove_left :
    (x : NodeId) (xs ys : List NodeId) → Apart xs ys → Apart (remove ℕ_discrete x xs) ys
Apart-remove_left x [] ys h = tt
Apart-remove_left x (z ∷ zs) ys h = ground (arith, Apart-remove_left x zs ys)

-- A new entry on the right, of a node that is not on the left.
Apart-cons_right :
    (x : NodeId) (xs ys : List NodeId)
    → elem ℕ_discrete x xs ≡ false
    → Apart xs ys
    → Apart xs (x ∷ ys)
Apart-cons_right x [] ys n h = tt
Apart-cons_right x (z ∷ zs) ys n h = ground (arith, Apart-cons_right x zs ys)

Apart-append :
    (x : NodeId) (xs ys : List NodeId)
    → elem ℕ_discrete x ys ≡ false
    → Apart xs ys
    → Apart (xs ++ x ∷ []) ys
Apart-append x [] ys n h = (n, tt)
Apart-append x (z ∷ zs) ys n h = (h.0, Apart-append x zs ys n h.1)

-- Where a cache entry leaves for the bucket, it is not in the bucket already.
Apart-head :
    (x : NodeId) (xs ys : List NodeId)
    → Apart xs (x ∷ ys)
    → (elem ℕ_discrete x xs ≡ false) × Apart xs ys
Apart-head x [] ys h = (refl, tt)
Apart-head x (z ∷ zs) ys h = ground (arith, Apart-head x zs ys)

elem-remove_ne :
    (x y : NodeId) (ys : List NodeId)
    → elem ℕ_discrete y ys ≡ false
    → elem ℕ_discrete y (remove ℕ_discrete x ys) ≡ false
elem-remove_ne x y [] h = refl
elem-remove_ne x y (z ∷ zs) h = ground (arith, elem-remove_ne x y zs)

elem-remove_self :
    (x : NodeId) (xs : List NodeId)
    → Distinct ℕ_discrete xs
    → elem ℕ_discrete x (remove ℕ_discrete x xs) ≡ false
elem-remove_self x xs d = ground (arith, elem-remove ℕ_discrete x x xs d)

FullIfWaiting-move :
    (size : ℕ) (x : NodeId) (bucket cache : List NodeId)
    → FullIfWaiting size bucket cache
    → (elem ℕ_discrete x bucket ≡ true) ⊎ (length bucket < size)
    → FullIfWaiting size (x ∷ remove ℕ_discrete x bucket) (remove ℕ_discrete x cache)
FullIfWaiting-move size x bucket [] f h = tt
FullIfWaiting-move size x bucket (y ∷ ys) f (inl h) =
    grind (arith, length-remove ℕ_discrete x bucket h)
FullIfWaiting-move size x bucket (y ∷ ys) f (inr h) = absurd (omega arith)

module _ (center : NodeId) (size i : ℕ) (x : NodeId) (bucket cache : List NodeId)
    (v : IsSlot center size i bucket cache) where
  -- `update_bucket_unchecked` of a node that is in the bucket, or for which there is room: the
  -- node comes first, and nothing falls off the end.
  pub move_front :
      (length (remove ℕ_discrete x bucket) < size)
      → append_left size x (remove ℕ_discrete x bucket) ≡ x ∷ remove ℕ_discrete x bucket
  move_front h = take_all size (x ∷ remove ℕ_discrete x bucket) h

  pub room :
      (elem ℕ_discrete x bucket ≡ true) ⊎ (length bucket < size)
      → length (remove ℕ_discrete x bucket) < size
  room (inl h) = omega (arith, length-remove ℕ_discrete x bucket h, v.fits)
  room (inr h) = omega (arith, length-remove-le x bucket)

  pub move_front-IsSlot :
      index_of center x ≡ i
      → (elem ℕ_discrete x bucket ≡ true) ⊎ (length bucket < size)
      → IsSlot center size i (x ∷ remove ℕ_discrete x bucket) (remove ℕ_discrete x cache)
  move_front-IsSlot e h = record {
    fits = room h;
    bucket_distinct = (
      elem-remove_self x bucket v.bucket_distinct,
      remove-Distinct ℕ_discrete x bucket v.bucket_distinct,
    );
    cache_distinct = remove-Distinct ℕ_discrete x cache v.cache_distinct;
    bucket_placed = (e, remove-Placed center i x bucket v.bucket_placed);
    cache_placed = remove-Placed center i x cache v.cache_placed;
    apart = (
      elem-remove_self x cache v.cache_distinct,
      Apart-remove_right x (remove ℕ_discrete x bucket) cache v.cache_distinct
          (Apart-remove_left x bucket cache v.apart),
    );
    full_if_waiting = FullIfWaiting-move size x bucket cache v.full_if_waiting h;
  }

  pub wait-IsSlot :
      index_of center x ≡ i
      → elem ℕ_discrete x bucket ≡ false
      → size ≤ length bucket
      → IsSlot center size i bucket (x ∷ remove ℕ_discrete x cache)
  wait-IsSlot e n h = record {
    fits = v.fits;
    bucket_distinct = v.bucket_distinct;
    bucket_placed = v.bucket_placed;
    cache_distinct = (
      elem-remove_self x cache v.cache_distinct,
      remove-Distinct ℕ_discrete x cache v.cache_distinct,
    );
    cache_placed = (e, remove-Placed center i x cache v.cache_placed);
    apart =
        Apart-cons_right x bucket (remove ℕ_discrete x cache) n
          (Apart-remove_right x bucket cache v.cache_distinct v.apart);
    full_if_waiting = h;
  }

FullIfWaiting-of_le :
    (size : ℕ) (bucket cache : List NodeId) → size ≤ length bucket → FullIfWaiting size bucket cache
FullIfWaiting-of_le size bucket [] h = tt
FullIfWaiting-of_le size bucket (x ∷ cache) h = h

FullIfWaiting-forget :
    (size : ℕ) (x : NodeId) (bucket cache : List NodeId)
    → FullIfWaiting size bucket cache
    → FullIfWaiting size bucket (remove ℕ_discrete x cache)
FullIfWaiting-forget size x bucket [] f = tt
FullIfWaiting-forget size x bucket (y ∷ cache) f =
    FullIfWaiting-of_le size bucket (remove ℕ_discrete x (y ∷ cache)) f

append_right_room :
    (size : ℕ) (xs : List NodeId) (y : NodeId)
    → length xs < size
    → append_right size xs y ≡ xs ++ y ∷ []
unfolding append_right
append_right_room zero xs y h = absurd (omega arith)
append_right_room (suc m) xs y h = ground arith

module _ (center : NodeId) (size i : ℕ) (x : NodeId) where
  -- `remove` of a node in the bucket.
  replace_removed-IsSlot :
      (bucket cache : List NodeId)
      → IsSlot center size i bucket cache
      → elem ℕ_discrete x bucket ≡ true
      → IsSlot center size i
          (replace_removed size x bucket cache).0
          (replace_removed size x bucket cache).1
  unfolding replace_removed
  replace_removed-IsSlot bucket [] v h = record {
    fits = omega (arith, length-remove-le x bucket, v.fits);
    bucket_distinct = remove-Distinct ℕ_discrete x bucket v.bucket_distinct;
    bucket_placed = remove-Placed center i x bucket v.bucket_placed;
    cache_distinct = tt;
    cache_placed = tt;
    apart = Apart-remove_left x bucket [] v.apart;
    full_if_waiting = tt;
  }
  replace_removed-IsSlot bucket (y ∷ ys) v h =
      let out : elem ℕ_discrete y (remove ℕ_discrete x bucket) ≡ false =
        elem-remove_ne x y bucket (Apart-head y bucket ys v.apart).0 in
      rw
        (append_right_room size (remove ℕ_discrete x bucket) y
          (omega (arith, length-remove ℕ_discrete x bucket h, v.fits)))
        (record {
          fits = omega (
            arith,
            length-remove ℕ_discrete x bucket h,
            v.fits,
            length-append (remove ℕ_discrete x bucket) (y ∷ []),
          );
          bucket_distinct =
              append_end-Distinct ℕ_discrete y (remove ℕ_discrete x bucket)
                (remove-Distinct ℕ_discrete x bucket v.bucket_distinct) out;
          bucket_placed =
              append-Placed center i y (remove ℕ_discrete x bucket) v.cache_placed.0
                (remove-Placed center i x bucket v.bucket_placed);
          cache_distinct = v.cache_distinct.1;
          cache_placed = v.cache_placed.1;
          apart =
              Apart-append y (remove ℕ_discrete x bucket) ys v.cache_distinct.0
                (Apart-remove_left x bucket ys (Apart-head y bucket ys v.apart).1);
          full_if_waiting = FullIfWaiting-of_le size (remove ℕ_discrete x bucket ++ y ∷ []) ys (
              omega (
                arith,
                length-remove ℕ_discrete x bucket h,
                v.full_if_waiting,
                length-append (remove ℕ_discrete x bucket) (y ∷ []),
              ));
        })

  -- `remove` leaves a slot without the node.
  pub vacated-IsSlot :
      (bucket cache : List NodeId)
      → IsSlot center size i bucket cache
      → IsSlot center size i (vacated size x bucket cache).0 (vacated size x bucket cache).1
  unfolding vacated
  vacated-IsSlot bucket cache v = elim (Bool-cases (elem ℕ_discrete x bucket)) [
    | inl h ↦ rw h (replace_removed-IsSlot bucket cache v h)
    | inr h ↦ rw h v
  ]

  pub elem-vacated_bucket :
      (bucket cache : List NodeId)
      → IsSlot center size i bucket cache
      → elem ℕ_discrete x (vacated size x bucket cache).0 ≡ false
  unfolding vacated replace_removed
  elem-vacated_bucket bucket [] v = ground (arith, elem-remove_self x bucket v.bucket_distinct)
  elem-vacated_bucket bucket (y ∷ ys) v = elim (Bool-cases (elem ℕ_discrete x bucket)) [
    | inl h ↦
        rw
          (
            h,
            append_right_room size (remove ℕ_discrete x bucket) y
                (omega (arith, length-remove ℕ_discrete x bucket h, v.fits)),
          )
          (ground (
            arith,
            elem-append_end ℕ_discrete x y (remove ℕ_discrete x bucket),
            elem-remove_self x bucket v.bucket_distinct,
            Apart-head y bucket ys v.apart,
          ))
    | inr h ↦ rw h h
  ]

  -- The node is not the replacement, so it stays in the cache where it was there.
  pub elem-vacated_cache :
      (bucket cache : List NodeId)
      → IsSlot center size i bucket cache
      → elem ℕ_discrete x (vacated size x bucket cache).1 ≡ elem ℕ_discrete x cache
  unfolding vacated replace_removed
  elem-vacated_cache bucket [] v = ground arith
  elem-vacated_cache bucket (y ∷ ys) v = ground (arith, Apart-head y bucket ys v.apart)

  pub forget-IsSlot :
      (bucket cache : List NodeId)
      → IsSlot center size i bucket cache
      → IsSlot center size i bucket (remove ℕ_discrete x cache)
  forget-IsSlot bucket cache v = record {
    fits = v.fits;
    bucket_distinct = v.bucket_distinct;
    bucket_placed = v.bucket_placed;
    cache_distinct = remove-Distinct ℕ_discrete x cache v.cache_distinct;
    cache_placed = remove-Placed center i x cache v.cache_placed;
    apart = Apart-remove_right x bucket cache v.cache_distinct v.apart;
    full_if_waiting = FullIfWaiting-forget size x bucket cache v.full_if_waiting;
  }
