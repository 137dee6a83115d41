-- ===== src/Negotiation/Layout.antt =====
-- The protocols of a connection share out the numbers of the commands.
use trinity.Prelude.{
  ℕ, zero, suc, ◌+◌, ◌<◌, ◌≤◌, ◌≡◌, refl, ap, Bool, some, List, [], ◌∷◌, get_elem?, inl, inr, arith,
  ltb, Bool-cases,
}
use trinity.Prelude.Exec.{ok, err, unknown_protocol_command}
use trinity.Negotiation.Protocols.{ProtocolType, base_p2p_protocol, p2p_protocol_command_length}
use trinity.Negotiation.Instances.{
  Protocol, new_protocol, accumulate_lengths, all_but_last, get_cmd_offsets, instances,
}
use trinity.Negotiation.Routing.{find_protocol, look_up}

-- Every protocol starts where the one before it ends.
abbrev pub laid_out : Bool → ℕ → List ProtocolType → List Protocol
laid_out snappy offset [] = []
laid_out snappy offset (cls ∷ classes) =
    new_protocol cls offset snappy ∷ laid_out snappy (offset + cls.command_length) classes

abbrev pub end_of : ℕ → List ProtocolType → ℕ
end_of offset [] = offset
end_of offset (cls ∷ classes) = end_of (offset + cls.command_length) classes

all_but_last-accumulate :
    (offset : ℕ) (cls : ProtocolType) (classes : List ProtocolType)
    → all_but_last (accumulate_lengths offset (cls ∷ classes))
      ≡ offset ∷ all_but_last (accumulate_lengths (offset + cls.command_length) classes)
all_but_last-accumulate offset cls [] = refl
all_but_last-accumulate offset cls (b ∷ bs) = refl

instances_from :
    (snappy : Bool) (offset : ℕ) (classes : List ProtocolType)
    → instances snappy classes (all_but_last (accumulate_lengths offset classes))
      ≡ laid_out snappy offset classes
unfolding instances
instances_from snappy offset [] = refl
instances_from snappy offset (cls ∷ classes) = rw (all_but_last-accumulate offset cls classes) (
    ap (◌∷◌ (new_protocol cls offset snappy))
      (instances_from snappy (offset + cls.command_length) classes))

pub instances_lem :
    (snappy : Bool) (classes : List ProtocolType)
    → instances snappy classes (get_cmd_offsets classes)
      ≡ laid_out snappy p2p_protocol_command_length classes
unfolding get_cmd_offsets
instances_lem snappy classes = instances_from snappy p2p_protocol_command_length classes

-- Where the instance at an index comes from.
pub record Instance (snappy : Bool) (offset : ℕ) (classes : List ProtocolType) (i : ℕ)
    (p : Protocol) : Type 0 where
  pub cls : ProtocolType
  pub own_offset : ℕ
  pub is_new : p ≡ new_protocol cls own_offset snappy
  pub is_class : get_elem? classes i ≡ some cls
  pub is_after : offset ≤ own_offset

pub Instance-at :
    (snappy : Bool) (offset : ℕ) (classes : List ProtocolType) (i : ℕ) (p : Protocol)
    → get_elem? (laid_out snappy offset classes) i ≡ some p
    → Instance snappy offset classes i p
Instance-at snappy offset [] i p h = absurd (ground arith)
Instance-at snappy offset (cls ∷ classes) zero p h = record {
  cls = cls;
  own_offset = offset;
  is_new = ground arith;
  is_class = refl;
  is_after = omega arith;
}
Instance-at snappy offset (cls ∷ classes) (suc i) p h =
    let r = Instance-at snappy (offset + cls.command_length) classes i p h in
    record {
      cls = r.cls;
      own_offset = r.own_offset;
      is_new = r.is_new;
      is_class = r.is_class;
      is_after = omega (arith, r.is_after);
    }

-- A number in the range of a protocol finds that protocol.
pub find_in_range :
    (snappy : Bool) (offset : ℕ) (classes : List ProtocolType) (i : ℕ) (p : Protocol) (n : ℕ)
    → get_elem? (laid_out snappy offset classes) i ≡ some p
    → p.command_id_offset ≤ n
    → n < p.command_id_offset + p.protocol_type.command_length
    → find_protocol (laid_out snappy offset classes) n ≡ ok p
unfolding find_protocol new_protocol
find_in_range snappy offset [] i p n h low high = absurd (ground arith)
find_in_range snappy offset (cls ∷ classes) zero p n h low high = ground arith
find_in_range snappy offset (cls ∷ classes) (suc i) p n h low high =
    let r = Instance-at snappy (offset + cls.command_length) classes i p h in
    let after : p.command_id_offset ≡ r.own_offset = ap (λ q. q.command_id_offset) r.is_new in
    let rest = find_in_range snappy (offset + cls.command_length) classes i p n h low high in
    ground (arith, r.is_after)

pub end_of-le : (offset : ℕ) (classes : List ProtocolType) → offset ≤ end_of offset classes
end_of-le offset [] = omega arith
end_of-le offset (cls ∷ classes) = omega (arith, end_of-le (offset + cls.command_length) classes)

-- A number beyond the last protocol finds none.
pub find_beyond :
    (snappy : Bool) (offset : ℕ) (classes : List ProtocolType) (n : ℕ)
    → end_of offset classes ≤ n
    → find_protocol (laid_out snappy offset classes) n ≡ err unknown_protocol_command
unfolding find_protocol new_protocol
find_beyond snappy offset [] n h = refl
find_beyond snappy offset (cls ∷ classes) n h = ground (
  arith,
  end_of-le (offset + cls.command_length) classes,
  find_beyond snappy (offset + cls.command_length) classes n h,
)

-- Any other number finds a protocol that has it in its range.
pub find_within :
    (snappy : Bool) (offset : ℕ) (classes : List ProtocolType) (n : ℕ)
    → offset ≤ n
    → n < end_of offset classes
    → (p : Protocol) × (i : ℕ) × (find_protocol (laid_out snappy offset classes) n ≡ ok p)
      × (get_elem? (laid_out snappy offset classes) i ≡ some p)
      × (p.command_id_offset ≤ n)
      × (n < p.command_id_offset + p.protocol_type.command_length)
unfolding find_protocol new_protocol
find_within snappy offset [] n low h = absurd (omega arith)
find_within snappy offset (cls ∷ classes) n low h =
    elim (Bool-cases (ltb n (offset + cls.command_length))) [
      | inl e ↦ (new_protocol cls offset snappy, 0, rw e refl, refl, low, ground arith)
      | inr e ↦
          let (p, i, found, member, starts, ends) =
            find_within snappy (offset + cls.command_length) classes n (ground arith) h in
          (p, suc i, rw e found, member, starts, ends)
    ]

-- The base protocol of a connection.
abbrev pub base_at : ℕ → Bool → Protocol
base_at version snappy = new_protocol (base_p2p_protocol version) 0 snappy

module _ (version : ℕ) (base_snappy snappy : Bool) (classes : List ProtocolType) where
  -- Every number below the end of the last protocol means a protocol whose range it is in, and a
  -- number from there on raises UnknownProtocolCommand.
  pub look_up_lem :
      (n : ℕ)
      → (n < end_of p2p_protocol_command_length classes
          → (p : Protocol) × (i : ℕ) × (look_up
                (base_at version base_snappy)
                (laid_out snappy p2p_protocol_command_length classes)
                n
              ≡ ok p)
            × (get_elem?
                  (base_at version base_snappy
                    ∷ (laid_out snappy p2p_protocol_command_length classes))
                  i
                ≡ some p)
            × (p.command_id_offset ≤ n)
            × (n < p.command_id_offset + p.protocol_type.command_length))
        × (end_of p2p_protocol_command_length classes ≤ n
            → look_up
                (base_at version base_snappy)
                (laid_out snappy p2p_protocol_command_length classes)
                n
              ≡ err unknown_protocol_command)
  unfolding look_up new_protocol
  look_up_lem n = elim (Bool-cases (ltb n 16)) [
    | inl e ↦ (
      λ h. (base_at version base_snappy, 0, rw e refl, refl, omega arith, ground arith),
      λ h. absurd (ground (arith, end_of-le p2p_protocol_command_length classes)),
    )
    | inr e ↦ (
      λ h.
          let (p, i, found, member, low, high) =
            find_within snappy p2p_protocol_command_length classes n (ground arith) h in
          (p, suc i, rw e found, member, low, high),
      λ h. rw e (find_beyond snappy p2p_protocol_command_length classes n h),
    )
  ]
