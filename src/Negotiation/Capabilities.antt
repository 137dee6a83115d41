-- ===== src/Negotiation/Capabilities.antt =====
-- p2p/handshake.py, `_select_capabilities`: the capabilities that two peers share. A set is a list
-- without repeated members.
use trinity.Prelude.Members.{pair_discrete}
use trinity.Prelude.{
  ℕ, Bool, Option, none, some, List, [], ◌∷◌, ◌++◌, elem, leb, ℕ_discrete, if◌then◌else◌,
}
use trinity.Prelude.Dict
use trinity.Prelude.Dict.{Dict}
use trinity.Prelude.Exec.{Result, key_error, index_error}
use trinity.Prelude.Fallible.{pure, raise, require, ◌>>=◌}
use trinity.Prelude.Sorting.{TotalOrder, sort_by}

-- The name of a protocol and its version.
abbrev pub Capability : Type 0 → Type 0
Capability Name = Name × ℕ

abbrev pub or_empty : {A : Type 0} → Option (List A) → List A
or_empty none = []
or_empty (some xs) = xs

abbrev pub keys : {K V : Type 0} → Dict K V → List K
keys [] = []
keys (e ∷ d) = e.0 ∷ keys d

-- `set(local).intersection(remote)`
module _ {A : Type 0} (dec : Discrete A) where
  abbrev pub intersection : List A → List A → List A
  intersection [] remote = []
  intersection (c ∷ cs) remote =
      let rest = intersection cs remote in
      if elem dec c remote then (if elem dec c rest then rest else c ∷ rest) else rest

-- `sorted(..., key=itemgetter(1), reverse=True)`
abbrev pub newer : {Name : Type 0} → Capability Name → Capability Name → Bool
newer a b = leb b.1 a.1

abbrev pub sort_by_version : {Name : Type 0} → List (Capability Name) → List (Capability Name)
sort_by_version cs = sort_by newer cs

module _ {Name : Type 0} (dec : Discrete Name) where
  -- `groupby(itemgetter(0), ...)`
  unfoldable pub group_into :
      Dict Name (List (Capability Name))
      → List (Capability Name)
      → Dict Name (List (Capability Name))
  group_into d [] = d
  group_into d (c ∷ cs) =
      group_into (Dict.put dec d c.0 (or_empty (Dict.get dec d c.0) ++ c ∷ [])) cs

  -- `valmap(tuple, valmap(sort_by_version, ...))`
  abbrev pub sort_groups : Dict Name (List (Capability Name)) → Dict Name (List (Capability Name))
  sort_groups [] = []
  sort_groups (e ∷ d) = (e.0, sort_by_version e.1) ∷ sort_groups d

  -- `yield capabilities_by_name[name][0]`
  abbrev pub first_of : List (Capability Name) → Result (Capability Name)
  first_of [] = raise index_error
  first_of (c ∷ cs) = pure c

  unfoldable pub first_of_each :
      Dict Name (List (Capability Name)) → List Name → Result (List (Capability Name))
  first_of_each d [] = pure []
  first_of_each d (n ∷ ns) = do
    group ← require key_error (Dict.get dec d n)
    first ← first_of group
    rest ← first_of_each d ns
    pure (first ∷ rest)

module _ {Name : Type 0} (dec : Discrete Name) (order : TotalOrder Name) where
  abbrev pub by_name : Capability Name → Capability Name → Bool
  by_name a b = order.before a.0 b.0

  -- What is made of the shared capabilities, in whichever order the set has them.
  unfoldable pub highest_of_each : List (Capability Name) → Result (List (Capability Name))
  unfolding group_into first_of_each
  highest_of_each shared =
      let capabilities_by_name = sort_groups dec (group_into dec [] (sort_by by_name shared)) in
      first_of_each dec capabilities_by_name (sort_by order.before (keys capabilities_by_name))

  unfoldable pub select_capabilities :
      List (Capability Name) → List (Capability Name) → Result (List (Capability Name))
  unfolding highest_of_each
  select_capabilities remote_capabilities local_capabilities =
      highest_of_each
        (intersection (pair_discrete dec ℕ_discrete) local_capabilities remote_capabilities)
