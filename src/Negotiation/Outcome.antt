-- ===== src/Negotiation/Outcome.antt =====
-- What two peers that negotiate with each other end up with.
use trinity.Prelude.{
  ℕ, suc, ◌≡◌, ◌⊎◌, ◌∙◌, refl, sym, ap, Bool, true, ◌&&◌, some, List, [], ◌∷◌, elem, elem_rest,
  elem_head, elem_more, get_elem?, inl, inr, arith, ltb, length, ◌==◌, some_inj, Bool-cases,
}
use trinity.Prelude.Dict
use trinity.Prelude.Dict.{Dict}
use trinity.Prelude.Exec.{Result, ok, err, no_matching_peer_capabilities}
use trinity.Prelude.Fallible.{Result-cases}
use trinity.Negotiation.Capabilities.{Capability}
use trinity.Negotiation.Protocols.{Name, Name-discrete, name_order, ProtocolType, as_capability}
use trinity.Negotiation.Instances.{
  Protocol, new_base_protocol, new_p2p_protocol_v4, new_p2p_protocol_v5, new_protocol,
  get_cmd_offsets, instances,
}
use trinity.Negotiation.Agreement.{and_comm, select_capabilities_lem, select_capabilities_comm}
use trinity.Negotiation.Handshake.{
  HelloPayload, Incoming, Negotiated, upgraded, do_p2p_handshake, get_base_protocol_class,
  duplicates, capabilities_of, Capability-discrete, by_capability, selected_types, is_empty,
  negotiate_types, negotiate_protocols,
}

-- Membership of a class, with its place.
abbrev pub Has : List ProtocolType → ProtocolType → Type 0
Has classes cls = (i : ℕ) × (get_elem? classes i ≡ some cls)

-- The two peers mean the same class by a capability.
abbrev pub SameClasses : List ProtocolType → List ProtocolType → Type 0
SameClasses local remote =
    (a b : ProtocolType) → Has local a → Has remote b → as_capability a ≡ as_capability b → a ≡ b

by_capability_sound :
    (classes : List ProtocolType) (d : Dict (Capability Name) ProtocolType) (c : Capability Name)
    (cls : ProtocolType)
    → Dict.get Capability-discrete (by_capability d classes) c ≡ some cls
    → (Has classes cls × (as_capability cls ≡ c)) ⊎ (Dict.get Capability-discrete d c ≡ some cls)
unfolding by_capability
by_capability_sound [] d c cls h = inr h
by_capability_sound (x ∷ xs) d c cls h =
    elim (by_capability_sound xs (Dict.put Capability-discrete d (as_capability x) x) c cls h) [
      | inl ((i, e), p) ↦ inl ((suc i, e), p)
      | inr k ↦ elim (Capability-discrete c (as_capability x)) [
        | yes q ↦
            let same : x ≡ cls =
              some_inj (Dict.get-put_self Capability-discrete d (as_capability x) c x q) k in
            inl ((0, ap some same), sym (ap as_capability same) ∙ sym q)
        | no q ↦ inr (sym (Dict.get-put_ne Capability-discrete d (as_capability x) c x q) ∙ k)
      ]
    ]

by_capability-grows :
    (classes : List ProtocolType) (d : Dict (Capability Name) ProtocolType) (c : Capability Name)
    (cls : ProtocolType)
    → Dict.get Capability-discrete d c ≡ some cls
    → (b : ProtocolType) × (Dict.get Capability-discrete (by_capability d classes) c ≡ some b)
unfolding by_capability
by_capability-grows [] d c cls h = (cls, h)
by_capability-grows (x ∷ xs) d c cls h = elim (Capability-discrete c (as_capability x)) [
  | yes q ↦
      by_capability-grows xs (Dict.put Capability-discrete d (as_capability x) x) c x
        (Dict.get-put_self Capability-discrete d (as_capability x) c x q)
  | no q ↦
      by_capability-grows xs (Dict.put Capability-discrete d (as_capability x) x) c cls
        (Dict.get-put_ne Capability-discrete d (as_capability x) c x q ∙ h)
]

by_capability_complete :
    (classes : List ProtocolType) (d : Dict (Capability Name) ProtocolType) (c : Capability Name)
    → elem Capability-discrete c (capabilities_of classes) ≡ true
    → (b : ProtocolType) × (Dict.get Capability-discrete (by_capability d classes) c ≡ some b)
unfolding by_capability
by_capability_complete [] d c h = absurd (ground arith)
by_capability_complete (x ∷ xs) d c h = elim (Capability-discrete c (as_capability x)) [
  | yes q ↦
      by_capability-grows xs (Dict.put Capability-discrete d (as_capability x) x) c x
        (Dict.get-put_self Capability-discrete d (as_capability x) c x q)
  | no q ↦
      by_capability_complete xs (Dict.put Capability-discrete d (as_capability x) x) c
        (elem_rest Capability-discrete c (as_capability x) (capabilities_of xs) q h)
]

-- The handshaker of a capability that is there.
handshaker_for :
    (classes : List ProtocolType) (c : Capability Name)
    → elem Capability-discrete c (capabilities_of classes) ≡ true
    → (cls : ProtocolType) × (Dict.get Capability-discrete (by_capability [] classes) c ≡ some cls)
      × Has classes cls
      × (as_capability cls ≡ c)
unfolding Dict.get
handshaker_for classes c h =
    let (cls, e) = by_capability_complete classes [] c h in
    elim (by_capability_sound classes [] c cls e) [
      | inl (p, q) ↦ (cls, e, p, q)
      | inr k ↦ absurd (ground arith)
    ]

AllIn : List (Capability Name) → List ProtocolType → Type 0
AllIn [] classes = Unit
AllIn (c ∷ cs) classes =
    (elem Capability-discrete c (capabilities_of classes) ≡ true) × AllIn cs classes

AllIn-elem :
    (cs : List (Capability Name)) (classes : List ProtocolType)
    → ((c : Capability Name)
        → elem Capability-discrete c cs ≡ true
        → elem Capability-discrete c (capabilities_of classes) ≡ true)
    → AllIn cs classes
unfolding AllIn
AllIn-elem [] classes h = tt
AllIn-elem (c ∷ cs) classes h = (
  h c (elem_head Capability-discrete c cs),
  AllIn-elem cs classes (λ b k. h b (elem_more Capability-discrete b c cs k)),
)

selected_types_agree :
    (local remote : List ProtocolType) (cs : List (Capability Name))
    → SameClasses local remote
    → AllIn cs local
    → AllIn cs remote
    → (types : List ProtocolType) × (selected_types (by_capability [] local) cs ≡ ok types)
      × (selected_types (by_capability [] remote) cs ≡ ok types)
unfolding selected_types AllIn
selected_types_agree local remote [] same p q = ([], refl, refl)
selected_types_agree local remote (c ∷ cs) same p q =
    let (a, ea, ha, ca) = handshaker_for local c p.0 in
    let (b, eb, hb, cb) = handshaker_for remote c q.0 in
    let one : a ≡ b = same a b ha hb (ca ∙ sym cb) in
    let (types, el, er) = selected_types_agree local remote cs same p.1 q.1 in
    (a ∷ types, rw (ea, el) refl, rw (eb ∙ ap some (sym one), er) refl)

-- Both sides find the same classes, or both find none.
types_agree :
    (local remote : List ProtocolType)
    → SameClasses local remote
    → ((types : List ProtocolType) × (negotiate_types (capabilities_of remote) local ≡ ok types)
        × (negotiate_types (capabilities_of local) remote ≡ ok types))
      ⊎ ((negotiate_types (capabilities_of remote) local ≡ err no_matching_peer_capabilities)
          × (negotiate_types (capabilities_of local) remote ≡ err no_matching_peer_capabilities))
unfolding negotiate_types
types_agree local remote same =
    let (selected, e, sorted, distinct, members) =
      select_capabilities_lem Name-discrete name_order (capabilities_of remote)
        (capabilities_of local) in
    let e' =
      select_capabilities_comm Name-discrete name_order (capabilities_of local)
        (capabilities_of remote)
      ∙ e in
    let here = AllIn-elem selected local (λ c h. ((members c).0 h).1) in
    let there = AllIn-elem selected remote (λ c h. ((members c).0 h).0) in
    let (types, el, er) = selected_types_agree local remote selected same here there in
    elim (Bool-cases (ltb (length selected) 1)) [
      | inl few ↦ inr (rw (e, few) refl, rw (e', few) refl)
      | inr enough ↦ inl (types, rw (e, enough) el, rw (e', enough) er)
    ]

-- The sub-protocols of an outcome.
abbrev pub sub_protocols : Result Negotiated → Result (List Protocol)
sub_protocols (ok n) = ok n.protocols
sub_protocols (err e) = err e

abbrev pub IsVersion : ℕ → Type 0
IsVersion version = (version ≡ 4) ⊎ (version ≡ 5)

abbrev pub snappy_for : ℕ → ℕ → Bool
snappy_for a b = (a == 5) && (b == 5)

abbrev pub laid : Bool → Result (List ProtocolType) → Result (List Protocol)
laid snappy (ok types) = ok (instances snappy types (get_cmd_offsets types))
laid snappy (err e) = err e

negotiate_one :
    (version : ℕ) (local : List ProtocolType) (payload : HelloPayload) (stream : List Incoming)
    → IsVersion version
    → IsVersion payload.version
    → is_empty (duplicates Capability-discrete (capabilities_of local)) ≡ true
    → sub_protocols (negotiate_protocols version local (Incoming.hello payload ∷ stream))
      ≡ laid (snappy_for version payload.version) (negotiate_types payload.capabilities local)
unfolding negotiate_protocols do_p2p_handshake upgraded get_base_protocol_class new_p2p_protocol_v4
    new_p2p_protocol_v5 new_base_protocol new_protocol
negotiate_one version local payload stream v w d =
    elim (Result-cases (negotiate_types payload.capabilities local)) [
      | inl (types, t) ↦ elim v [
        | inl e ↦ rw (e, d, t) refl
        | inr e ↦ elim w [ inl f ↦ rw (e, f, d, t) refl | inr f ↦ rw (e, f, d, t) refl ]
      ]
      | inr (x, t) ↦ elim v [
        | inl e ↦ rw (e, d, t) refl
        | inr e ↦ elim w [ inl f ↦ rw (e, f, d, t) refl | inr f ↦ rw (e, f, d, t) refl ]
      ]
    ]

-- Two peers of version 4 or 5 without repeated capabilities that exchange their Hello messages, and
-- mean the same class by a capability that they share, end up with the same sub-protocols at the
-- same offsets, with snappy where both have version 5; or both raise NoMatchingPeerCapabilities.
pub negotiate_protocols_agree :
    (local : List ProtocolType) (own : HelloPayload) (remote : List ProtocolType)
    (other : HelloPayload) (stream back : List Incoming)
    → IsVersion own.version
    → IsVersion other.version
    → own.capabilities ≡ capabilities_of local
    → other.capabilities ≡ capabilities_of remote
    → is_empty (duplicates Capability-discrete (capabilities_of local)) ≡ true
    → is_empty (duplicates Capability-discrete (capabilities_of remote)) ≡ true
    → SameClasses local remote
    → (result : Result (List Protocol)) × (sub_protocols
          (negotiate_protocols own.version local (Incoming.hello other ∷ stream))
        ≡ result)
      × (sub_protocols (negotiate_protocols other.version remote (Incoming.hello own ∷ back))
          ≡ result)
      × ((result ≡ err no_matching_peer_capabilities)
          ⊎ ((types : List ProtocolType) × (result
                ≡ ok (
                    instances
                      (snappy_for own.version other.version)
                      types
                      (get_cmd_offsets types)))))
negotiate_protocols_agree local own remote other stream back v w c d dl dr same =
    let one = negotiate_one own.version local other stream v w dl in
    let two = negotiate_one other.version remote own back w v dr in
    let snappy = and_comm (own.version == 5) (other.version == 5) in
    elim (types_agree local remote same) [
      | inl (types, el, er) ↦
          let result : Result (List Protocol) =
            ok (instances (snappy_for own.version other.version) types (get_cmd_offsets types)) in
          (result, one ∙ rw (d, el) refl, two ∙ rw (c, er, snappy) refl, inr (types, refl))
      | inr (el, er) ↦ (
        err no_matching_peer_capabilities,
        one ∙ rw (d, el) refl,
        two ∙ rw (c, er) refl,
        inl refl,
      )
    ]
