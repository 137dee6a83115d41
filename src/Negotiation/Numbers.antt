-- ===== src/Negotiation/Numbers.antt =====
-- The dictionaries of a protocol are inverse to each other, and offsets are sums of lengths.
use trinity.Prelude.{
  ℕ, ◌+◌, ◌<◌, ◌≡◌, ◌∙◌, refl, sym, ap, Bool, true, none, some, List, [], ◌∷◌, elem, Distinct, inl,
  inr, arith, ℕ_discrete, some-ne-none, true-ne-false, elem_rest, if◌then◌else◌, Bool-cases,
}
use trinity.Prelude.Bytes.{AllBelow}
use trinity.Prelude.Dict
use trinity.Prelude.Dict.{Dict}
use trinity.Prelude.Exec.{ok, err, key_error}
use trinity.Negotiation.Protocols.{Command, Command-discrete, protocol_command_id, ProtocolType}
use trinity.Negotiation.Instances.{
  ids_into, types_into, new_protocol, get_command_type_for_command_id, command_id_of,
}

abbrev pub numbers : List Command → List ℕ
numbers [] = []
numbers (c ∷ cs) = protocol_command_id c ∷ numbers cs

-- The commands of a protocol have different numbers below its length.
abbrev pub IsNumbered : ProtocolType → Type 0
IsNumbered cls =
    AllBelow cls.command_length (numbers cls.commands) × Distinct ℕ_discrete (numbers cls.commands)

elem-numbers :
    (c : Command) (cs : List Command)
    → elem Command-discrete c cs ≡ true
    → elem ℕ_discrete (protocol_command_id c) (numbers cs) ≡ true
elem-numbers c [] h = absurd (ground arith)
elem-numbers c (x ∷ xs) h = ground (arith, elem-numbers c xs)

pub number_below :
    (m : ℕ) (c : Command) (cs : List Command)
    → AllBelow m (numbers cs)
    → elem Command-discrete c cs ≡ true
    → protocol_command_id c < m
number_below m c [] b h = absurd (ground arith)
number_below m c (x ∷ xs) b h = ground (arith, number_below m c xs)

number_inj :
    (c b : Command) (cs : List Command)
    → Distinct ℕ_discrete (numbers cs)
    → elem Command-discrete c cs ≡ true
    → elem Command-discrete b cs ≡ true
    → protocol_command_id c ≡ protocol_command_id b
    → c ≡ b
number_inj c b [] d h k e = absurd (ground arith)
number_inj c b (x ∷ xs) d h k e = elim (Command-discrete c x) [
  | yes p ↦ elim (Command-discrete b x) [
    | yes q ↦ p ∙ sym q
    | no q ↦
        let member = elem-numbers b xs (elem_rest Command-discrete b x xs q k) in
        absurd (
          true-ne-false (
            sym member
            ∙ ap (λ n. elem ℕ_discrete n (numbers xs)) (sym e ∙ ap protocol_command_id p)
            ∙ d.0))
  ]
  | no p ↦
      let member = elem_rest Command-discrete c x xs p h in
      elim (Command-discrete b x) [
        | yes q ↦ absurd (
            true-ne-false (
              sym (elem-numbers c xs member)
              ∙ ap (λ n. elem ℕ_discrete n (numbers xs)) (e ∙ ap protocol_command_id q)
              ∙ d.0))
        | no q ↦ number_inj c b xs d.1 member (elem_rest Command-discrete b x xs q k) e
      ]
]

pub get-nil : {K V : Type 0} (dec : Discrete K) (k : K) → Dict.get {V = V} dec [] k ≡ none
unfolding Dict.get
get-nil dec k = refl

module _ (offset : ℕ) where
  get-ids_into :
      (cs : List Command) (d : Dict Command ℕ) (c : Command)
      → Dict.get Command-discrete (ids_into offset d cs) c ≡ (
          if elem Command-discrete c cs
          then some (offset + protocol_command_id c)
          else Dict.get Command-discrete d c)
  unfolding ids_into
  get-ids_into [] d c = refl
  get-ids_into (x ∷ xs) d c =
      let n = offset + protocol_command_id x in
      ground (
        arith,
        get-ids_into xs (Dict.put Command-discrete d x n) c,
        Dict.get-put Command-discrete d x c n,
      )

  -- Every entry of the first dictionary numbers one of the commands.
  abbrev AllNumbered : List Command → Dict Command ℕ → Type 0
  AllNumbered cs [] = Unit
  AllNumbered cs (e ∷ d) =
      (e.1 ≡ offset + protocol_command_id e.0)
      × (elem Command-discrete e.0 cs ≡ true)
      × AllNumbered cs d

  AllNumbered-put :
      (all : List Command) (d : Dict Command ℕ) (c : Command)
      → elem Command-discrete c all ≡ true
      → AllNumbered all d
      → AllNumbered all (Dict.put Command-discrete d c (offset + protocol_command_id c))
  unfolding Dict.put
  AllNumbered-put all [] c h p = (refl, h, tt)
  AllNumbered-put all (e ∷ d) c h p = elim (Command-discrete c e.0) [
    | yes q ↦ ground arith
    | no q ↦ ground (arith, AllNumbered-put all d c)
  ]

  ids_into-AllNumbered :
      (all cs : List Command) (d : Dict Command ℕ)
      → ((c : Command) → elem Command-discrete c cs ≡ true → elem Command-discrete c all ≡ true)
      → AllNumbered all d
      → AllNumbered all (ids_into offset d cs)
  unfolding ids_into
  ids_into-AllNumbered all [] d h p = p
  ids_into-AllNumbered all (c ∷ cs) d h p =
      ids_into-AllNumbered all cs (Dict.put Command-discrete d c (offset + protocol_command_id c))
        (λ b k. h b (ground arith)) (AllNumbered-put all d c (h c (ground arith)) p)

  -- What the second dictionary holds is a command with that number.
  types_into_sound :
      (all : List Command) (d : Dict Command ℕ) (t : Dict ℕ Command) (n : ℕ) (c : Command)
      → AllNumbered all d
      → (Dict.get ℕ_discrete t n ≡ some c
          → (n ≡ offset + protocol_command_id c) × (elem Command-discrete c all ≡ true))
      → Dict.get ℕ_discrete (types_into t d) n ≡ some c
      → (n ≡ offset + protocol_command_id c) × (elem Command-discrete c all ≡ true)
  unfolding types_into
  types_into_sound all [] t n c p h k = h k
  types_into_sound all (e ∷ d) t n c p h k =
      types_into_sound all d (Dict.put ℕ_discrete t e.1 e.0) n c p.2
        (λ q. ground (arith, Dict.get-put ℕ_discrete t e.1 n e.0)) k

  -- A number stays in it.
  types_into_grows :
      (d : Dict Command ℕ) (t : Dict ℕ Command) (n : ℕ) (c : Command)
      → Dict.get ℕ_discrete t n ≡ some c
      → (b : Command) × (Dict.get ℕ_discrete (types_into t d) n ≡ some b)
  unfolding types_into
  types_into_grows [] t n c h = (c, h)
  types_into_grows (e ∷ d) t n c h = elim (ℕ_discrete n e.1) [
    | yes q ↦
        types_into_grows d (Dict.put ℕ_discrete t e.1 e.0) n e.0
          (Dict.get-put_self ℕ_discrete t e.1 n e.0 q)
    | no q ↦
        types_into_grows d (Dict.put ℕ_discrete t e.1 e.0) n c
          (Dict.get-put_ne ℕ_discrete t e.1 n e.0 q ∙ h)
  ]

  types_into_complete :
      (d : Dict Command ℕ) (t : Dict ℕ Command) (n : ℕ) (c : Command)
      → Dict.get Command-discrete d c ≡ some n
      → (b : Command) × (Dict.get ℕ_discrete (types_into t d) n ≡ some b)
  unfolding Dict.get types_into
  types_into_complete [] t n c h = absurd (ground arith)
  types_into_complete (e ∷ d) t n c h = elim (Command-discrete c e.0) [
    | yes q ↦
        types_into_grows d (Dict.put ℕ_discrete t e.1 e.0) n e.0
          (Dict.get-put_self ℕ_discrete t e.1 n e.0 (ground arith))
    | no q ↦ types_into_complete d (Dict.put ℕ_discrete t e.1 e.0) n c (ground arith)
  ]

module _ (cls : ProtocolType) (offset : ℕ) (snappy : Bool) where
  -- The number of every command of the protocol, and of no other.
  pub command_id_of_lem :
      (c : Command)
      → command_id_of (new_protocol cls offset snappy) c ≡ (
          if elem Command-discrete c cls.commands
          then ok (offset + protocol_command_id c)
          else err key_error)
  unfolding command_id_of new_protocol
  command_id_of_lem c = elim (Bool-cases (elem Command-discrete c cls.commands)) [
    | inl e ↦ rw (get-ids_into offset cls.commands [] c, e) refl
    | inr e ↦ rw (get-ids_into offset cls.commands [] c, e, get-nil Command-discrete c) refl
  ]

  -- The command for a number that stands for one.
  pub type_for_id :
      IsNumbered cls
      → (c : Command) → elem Command-discrete c cls.commands ≡ true
      → get_command_type_for_command_id
          (new_protocol cls offset snappy)
          (offset + protocol_command_id c)
        ≡ ok c
  unfolding get_command_type_for_command_id new_protocol
  type_for_id p c h =
      let n = offset + protocol_command_id c in
      let ids = ids_into offset [] cls.commands in
      let found : Dict.get Command-discrete ids c ≡ some n =
        rw (get-ids_into offset cls.commands [] c, h) refl in
      let (b, e) = types_into_complete offset ids [] n c found in
      let (same, member) =
        types_into_sound offset cls.commands ids [] n b
          (ids_into-AllNumbered offset cls.commands cls.commands [] (λ x k. k) tt)
          (λ q. absurd (some-ne-none q (get-nil ℕ_discrete n))) e in
      let eq : c ≡ b = number_inj c b cls.commands p.1 h member (omega arith) in rw (e, eq) refl
