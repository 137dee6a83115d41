-- ===== src/Prelude/Dict.antt =====
-- Python's `dict`: a list of entries in insertion order. An assignment to a key that is present
-- keeps its place, and a new key goes to the end.
use Prim.Native.Nat.{ℕ, suc, ◌+◌, ◌≤◌, ◌<◌}
use mathlib.Core.Path.{◌≡◌, refl}
use mathlib.Core.Logic.{ite, ◌≢◌}
use mathlib.Core.Bool.{Bool, true, false}
use mathlib.Core.List.{List, [], ◌∷◌}
use mathlib.Core.Option.{Option, none, some}
use native.Mathlib.Omega.{arith}

abbrev pub Dict {ℓ} : Type ℓ → Type ℓ → Type ℓ
Dict K V = List (K × V)

module _ {ℓ} {K V : Type ℓ} where
  abbrev pub size : Dict K V → ℕ
  size [] = 0
  size (e ∷ d) = suc (size d)

module _ {K V : Type 0} (dec : Discrete K) where
  -- d.get(k)
  unfoldable pub get : Dict K V → K → Option V
  get [] k = none
  get ((j, v) ∷ d) k = ite (dec k j) (some v) (get d k)

  -- d[k] = v
  unfoldable pub put : Dict K V → K → V → Dict K V
  put [] k v = (k, v) ∷ []
  put ((j, w) ∷ d) k v = ite (dec k j) ((j, v) ∷ d) ((j, w) ∷ put d k v)

  -- del d[k]
  unfoldable pub del : Dict K V → K → Dict K V
  del [] k = []
  del ((j, w) ∷ d) k = ite (dec k j) (del d k) ((j, w) ∷ del d k)

  -- k in d
  unfoldable pub has : Dict K V → K → Bool
  unfolding get
  has d k = elim (get d k) [ none ↦ false | some v ↦ true ]

  pub has-some : (d : Dict K V) (k : K) (v : V) → get d k ≡ some v → has d k ≡ true
  unfolding has
  has-some d k v h = ground arith

  pub has-none : (d : Dict K V) (k : K) → get d k ≡ none → has d k ≡ false
  unfolding has
  has-none d k h = ground arith

  pub get-put :
      (d : Dict K V) (k j : K) (v : V) → get (put d k v) j ≡ ite (dec j k) (some v) (get d j)
  unfolding get put
  get-put [] k j v = refl
  get-put ((i, w) ∷ d) k j v = ground (arith, get-put d k j v)

  pub get-put_self : (d : Dict K V) (k j : K) (v : V) → j ≡ k → get (put d k v) j ≡ some v
  get-put_self d k j v e = ground (arith, get-put d k j v)

  pub get-put_ne : (d : Dict K V) (k j : K) (v : V) → j ≢ k → get (put d k v) j ≡ get d j
  get-put_ne d k j v ne = ground (arith, get-put d k j v)

  pub get-del : (d : Dict K V) (k j : K) → get (del d k) j ≡ ite (dec j k) none (get d j)
  unfolding get del
  get-del [] k j = ground arith
  get-del ((i, w) ∷ d) k j = ground (arith, get-del d k j)

  pub get-del_self : (d : Dict K V) (k j : K) → j ≡ k → get (del d k) j ≡ none
  get-del_self d k j e = ground (arith, get-del d k j)

  -- What is found after a deletion was there before, under another key.
  pub get-del_found :
      (d : Dict K V) (k j : K) (v : V) → get (del d k) j ≡ some v → (j ≢ k) × (get d j ≡ some v)
  get-del_found d k j v h = ground (arith, get-del d k j)

  pub get-del_ne : (d : Dict K V) (k j : K) → j ≢ k → get (del d k) j ≡ get d j
  get-del_ne d k j ne = ground (arith, get-del d k j)

  pub get-del-none : (d : Dict K V) (k j : K) → get d j ≡ none → get (del d k) j ≡ none
  get-del-none d k j h = ground (arith, get-del d k j)

  pub size-put : (d : Dict K V) (k : K) (v : V) → get d k ≡ none → size (put d k v) ≡ size d + 1
  unfolding get put
  size-put [] k v h = omega arith
  size-put ((i, w) ∷ d) k v h = ground (arith, size-put d k v)

  pub size-del-le : (d : Dict K V) (k : K) → size (del d k) ≤ size d
  unfolding del
  size-del-le [] k = omega arith
  size-del-le ((i, w) ∷ d) k = ground (arith, size-del-le d k)

  pub size-del-lt : (d : Dict K V) (k : K) (v : V) → get d k ≡ some v → size (del d k) < size d
  unfolding get del
  size-del-lt [] k v h = ground arith
  size-del-lt ((i, w) ∷ d) k v h = ground (arith, size-del-lt d k v, size-del-le d k)
