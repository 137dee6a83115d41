-- ===== src/Negotiation/Groups.antt =====
-- What the dictionary of `_select_capabilities` holds: for every shared name its capabilities.
use trinity.Prelude.{
  ◌≡◌, ◌∙◌, refl, ap, true, ◌||◌, some, List, [], ◌∷◌, ◌++◌, elem, Distinct, ite, arith,
}
use mathlib.Core.List.{append-nil, append_assoc}
use trinity.Prelude.Dict
use trinity.Prelude.Dict.{Dict}
use trinity.Negotiation.Capabilities.{
  Capability, or_empty, keys, sort_by_version, group_into, sort_groups,
}

abbrev pub names : {Name : Type 0} → List (Capability Name) → List Name
names [] = []
names (c ∷ cs) = c.0 ∷ names cs

module _ {Name : Type 0} (dec : Discrete Name) where
  abbrev pub with_name : Name → List (Capability Name) → List (Capability Name)
  with_name n [] = []
  with_name n (c ∷ cs) = ite (dec n c.0) (c ∷ with_name n cs) (with_name n cs)

  get-group_into :
      (d : Dict Name (List (Capability Name))) (cs : List (Capability Name)) (n : Name)
      → or_empty (Dict.get dec (group_into dec d cs) n)
        ≡ or_empty (Dict.get dec d n) ++ with_name n cs
  unfolding group_into
  get-group_into d [] n = ground (arith, append-nil (or_empty (Dict.get dec d n)))
  get-group_into d (c ∷ cs) n =
      let d' = Dict.put dec d c.0 (or_empty (Dict.get dec d c.0) ++ c ∷ []) in
      ground (
        arith,
        get-group_into d' cs n,
        Dict.get-put dec d c.0 n (or_empty (Dict.get dec d c.0) ++ c ∷ []),
        append_assoc (or_empty (Dict.get dec d c.0)) (c ∷ []) (with_name n cs),
      )

  keys-put :
      (d : Dict Name (List (Capability Name))) (n m : Name) (v : List (Capability Name))
      → elem dec m (keys (Dict.put dec d n v)) ≡ ite (dec m n) true (elem dec m (keys d))
  unfolding Dict.put
  keys-put [] n m v = refl
  keys-put (e ∷ d) n m v = ground (arith, keys-put d n m v)

  put-Distinct :
      (d : Dict Name (List (Capability Name))) (n : Name) (v : List (Capability Name))
      → Distinct dec (keys d)
      → Distinct dec (keys (Dict.put dec d n v))
  unfolding Dict.put
  put-Distinct [] n v h = (refl, tt)
  put-Distinct (e ∷ d) n v h = ground (arith, keys-put d n e.0 v, put-Distinct d n v)

  elem-keys-group_into :
      (d : Dict Name (List (Capability Name))) (cs : List (Capability Name)) (n : Name)
      → elem dec n (keys (group_into dec d cs)) ≡ (elem dec n (names cs) || elem dec n (keys d))
  unfolding group_into
  elem-keys-group_into d [] n = refl
  elem-keys-group_into d (c ∷ cs) n =
      let v = or_empty (Dict.get dec d c.0) ++ c ∷ [] in
      ground (arith, elem-keys-group_into (Dict.put dec d c.0 v) cs n, keys-put d c.0 n v)

  group_into-Distinct :
      (d : Dict Name (List (Capability Name))) (cs : List (Capability Name))
      → Distinct dec (keys d)
      → Distinct dec (keys (group_into dec d cs))
  unfolding group_into
  group_into-Distinct d [] h = h
  group_into-Distinct d (c ∷ cs) h =
      let v = or_empty (Dict.get dec d c.0) ++ c ∷ [] in
      group_into-Distinct (Dict.put dec d c.0 v) cs (put-Distinct d c.0 v h)

  keys-sort_groups : (d : Dict Name (List (Capability Name))) → keys (sort_groups dec d) ≡ keys d
  keys-sort_groups [] = refl
  keys-sort_groups (e ∷ d) = ground (arith, keys-sort_groups d)

  get-sort_groups :
      (d : Dict Name (List (Capability Name))) (n : Name)
      → or_empty (Dict.get dec (sort_groups dec d) n)
        ≡ sort_by_version (or_empty (Dict.get dec d n))
  unfolding Dict.get
  get-sort_groups [] n = refl
  get-sort_groups (e ∷ d) n = ground (arith, get-sort_groups d n)

  -- A key has a group, if only an empty one.
  get_key :
      (d : Dict Name (List (Capability Name))) (n : Name)
      → elem dec n (keys d) ≡ true
      → Dict.get dec d n ≡ some (or_empty (Dict.get dec d n))
  unfolding Dict.get
  get_key [] n h = ground arith
  get_key (e ∷ d) n h = ground (arith, get_key d n)

  abbrev pub groups : List (Capability Name) → Dict Name (List (Capability Name))
  groups cs = sort_groups dec (group_into dec [] cs)

  pub groups-Distinct : (cs : List (Capability Name)) → Distinct dec (keys (groups cs))
  groups-Distinct cs = rw (keys-sort_groups (group_into dec [] cs)) (group_into-Distinct [] cs tt)

  pub elem-keys-groups :
      (cs : List (Capability Name)) (n : Name)
      → elem dec n (keys (groups cs)) ≡ elem dec n (names cs)
  elem-keys-groups cs n =
      rw (keys-sort_groups (group_into dec [] cs), elem-keys-group_into [] cs n) (ground arith)

  -- The group of a name that is there: its capabilities, the newest first.
  pub get-groups :
      (cs : List (Capability Name)) (n : Name)
      → elem dec n (names cs) ≡ true
      → Dict.get dec (groups cs) n ≡ some (sort_by_version (with_name n cs))
  unfolding Dict.get
  get-groups cs n h =
      get_key (groups cs) n (elem-keys-groups cs n ∙ h)
      ∙ ap some
          (get-sort_groups (group_into dec [] cs) n ∙ ap sort_by_version (get-group_into [] cs n))
