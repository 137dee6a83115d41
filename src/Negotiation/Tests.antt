-- ===== src/Negotiation/Tests.antt =====
-- Two peers with some protocols in common, on concrete lists.
use trinity.Prelude.{
  ℕ, zero, suc, ◌+◌, ◌<◌, ◌≤◌, ◌≡◌, ◌↔◌, ◌⊎◌, refl, sym, ap, inr, some-ne-none, ◌∙◌, true, some,
  List, [], ◌∷◌, elem, get_elem?, Distinct, repeats-Distinct, arith, ℕ_discrete, some_inj,
}
use trinity.Prelude.Dict
use trinity.Prelude.Exec.{Result, ok, err, no_matching_peer_capabilities, unknown_protocol_command}
use trinity.Prelude.Members.{pair_discrete}
use trinity.Prelude.Sorting.{IsSorted}
use trinity.Negotiation.Capabilities.{
  Capability, group_into, first_of_each, highest_of_each, select_capabilities,
}
use trinity.Negotiation.Groups.{names}
use trinity.Negotiation.Newest.{dec_capability}
use trinity.Negotiation.Protocols.{
  Command, Command-discrete, protocol_command_id, Name, Name-discrete, name_order, ProtocolType,
  base_p2p_protocol, p2p_protocol_command_length, eth_protocol_v63, eth_protocol_v64,
  eth_protocol_v65, les_protocol_v1, les_protocol_v2, witness_protocol,
}
use trinity.Negotiation.Instances.{
  Protocol, ids_into, types_into, new_protocol, get_cmd_offsets, instances, command_id_of,
}
use trinity.Negotiation.Numbers.{numbers}
use trinity.Negotiation.Routing.{look_up, route_all}
use trinity.Negotiation.Layout.{laid_out, base_at, end_of, look_up_lem}
use trinity.Negotiation.RoundTrip.{AllIsNumbered, send_all, route_all-send_all}
use trinity.Negotiation.Agreement.{IsAgreed, select_capabilities_lem, select_capabilities_comm}
use trinity.Negotiation.Handshake.{
  HelloPayload, Incoming, duplicates, count_into, capabilities_of, negotiate_protocols,
}
use trinity.Negotiation.Outcome.{SameClasses, snappy_for, sub_protocols, negotiate_protocols_agree}

-- All protocols of the repository number their commands well.
all_protocols-AllIsNumbered : AllIsNumbered (
    eth_protocol_v63 ∷ eth_protocol_v64 ∷ eth_protocol_v65 ∷ les_protocol_v1 ∷ les_protocol_v2
    ∷ witness_protocol ∷ [])
unfolding protocol_command_id ℕ_discrete
all_protocols-AllIsNumbered = (
  (omega arith, repeats-Distinct ℕ_discrete (numbers eth_protocol_v63.commands) refl),
  (
    (omega arith, repeats-Distinct ℕ_discrete (numbers eth_protocol_v64.commands) refl),
    (
      (omega arith, repeats-Distinct ℕ_discrete (numbers eth_protocol_v65.commands) refl),
      (
        (omega arith, repeats-Distinct ℕ_discrete (numbers les_protocol_v1.commands) refl),
        (
          (omega arith, repeats-Distinct ℕ_discrete (numbers les_protocol_v2.commands) refl),
          ((omega arith, repeats-Distinct ℕ_discrete (numbers witness_protocol.commands) refl), tt),
        ),
      ),
    ),
  ),
)

abbrev here : List (Capability Name)
here = (Name.wit, 0) ∷ (Name.eth, 64) ∷ (Name.eth, 65) ∷ []

abbrev there : List (Capability Name)
there = (Name.eth, 63) ∷ (Name.eth, 64) ∷ (Name.eth, 65) ∷ (Name.les, 2) ∷ (Name.wit, 0) ∷ []

selects_newest :
    select_capabilities Name-discrete name_order there here
    ≡ ok ((Name.eth, 65) ∷ (Name.wit, 0) ∷ [])
unfolding select_capabilities highest_of_each first_of_each group_into Dict.get Dict.put ℕ_discrete
    Name-discrete pair_discrete
selects_newest = refl

select_capabilities_example :
    (selected : List (Capability Name)) × (select_capabilities Name-discrete name_order there here
      ≡ ok selected)
    × IsSorted name_order.before (names selected)
    × Distinct Name-discrete (names selected)
    × ((c : Capability Name)
        → (elem (dec_capability Name-discrete) c selected ≡ true)
          ↔ IsAgreed Name-discrete name_order there here c)
select_capabilities_example = select_capabilities_lem Name-discrete name_order there here

select_capabilities_comm_example :
    select_capabilities Name-discrete name_order there here
    ≡ select_capabilities Name-discrete name_order here there
select_capabilities_comm_example = select_capabilities_comm Name-discrete name_order there here

abbrev classes : List ProtocolType
classes = eth_protocol_v65 ∷ witness_protocol ∷ []

abbrev base : Protocol
base = new_protocol (base_p2p_protocol 5) 0 true

abbrev sent : List (Protocol × Command)
sent =
    (base, Command.ping)
    ∷ (new_protocol witness_protocol 33 true, Command.block_witness_hashes)
    ∷ (new_protocol eth_protocol_v65 16 true, Command.transactions)
    ∷ (base, Command.ping)
    ∷ []

classes-AllIsNumbered : AllIsNumbered classes
classes-AllIsNumbered =
    (all_protocols-AllIsNumbered.1.1.0, (all_protocols-AllIsNumbered.1.1.1.1.1.0, tt))

route_all-send_all_example :
    (route_all base (instances true classes (get_cmd_offsets classes)) (2 ∷ 35 ∷ 18 ∷ 2 ∷ []) []).0
    ≡ ok sent
unfolding send_all command_id_of new_protocol ids_into types_into protocol_command_id
    Command-discrete instances get_cmd_offsets Dict.get Dict.put ℕ_discrete
route_all-send_all_example =
    route_all-send_all 5 true true classes sent (2 ∷ 35 ∷ 18 ∷ 2 ∷ []) classes-AllIsNumbered
      ((0, refl), ((2, refl), ((1, refl), ((0, refl), tt)))) refl

look_up_example :
    (57 < end_of p2p_protocol_command_length classes
      → (p : Protocol) × (i : ℕ) × (look_up
            (base_at 5 true)
            (laid_out true p2p_protocol_command_length classes)
            57
          ≡ ok p)
        × (get_elem? (base_at 5 true ∷ laid_out true p2p_protocol_command_length classes) i
            ≡ some p)
        × (p.command_id_offset ≤ 57)
        × (57 < p.command_id_offset + p.protocol_type.command_length))
    × (end_of p2p_protocol_command_length classes ≤ 57
        → look_up (base_at 5 true) (laid_out true p2p_protocol_command_length classes) 57
          ≡ err unknown_protocol_command)
look_up_example = look_up_lem 5 true true classes 57

abbrev hello_from : List ProtocolType → HelloPayload
hello_from classes = record {
  version = 5;
  client_version_string = [];
  capabilities = capabilities_of classes;
  listen_port = 30303;
  remote_public_key = [];
}

abbrev full_node : List ProtocolType
full_node = eth_protocol_v64 ∷ eth_protocol_v65 ∷ []

abbrev light_node : List ProtocolType
light_node = eth_protocol_v65 ∷ []

one_class-SameClasses : SameClasses light_node full_node
one_class-SameClasses a b (zero, p) (zero, q) e =
    let one = ap (λ c. c.version) (some_inj refl p) in
    let two = ap (λ c. c.version) (some_inj refl q) in
    let both = ap (λ c. c.1) e in absurd (omega arith)
one_class-SameClasses a b (zero, p) (suc zero, q) e = sym (some_inj refl p) ∙ some_inj refl q
one_class-SameClasses a b (zero, p) (suc (suc i), q) e = absurd (some-ne-none q refl)
one_class-SameClasses a b (suc i, p) q e = absurd (some-ne-none p refl)

negotiate_protocols_agree_example :
    (result : Result (List Protocol)) × (sub_protocols
        (negotiate_protocols 5 light_node (Incoming.hello (hello_from full_node) ∷ []))
      ≡ result)
    × (sub_protocols (negotiate_protocols 5 full_node (Incoming.hello (hello_from light_node) ∷ []))
        ≡ result)
    × ((result ≡ err no_matching_peer_capabilities)
        ⊎ ((types : List ProtocolType) × (result
              ≡ ok (instances (snappy_for 5 5) types (get_cmd_offsets types)))))
unfolding duplicates count_into Dict.get Dict.put ℕ_discrete Name-discrete pair_discrete
negotiate_protocols_agree_example =
    negotiate_protocols_agree light_node (hello_from light_node) full_node (hello_from full_node) []
      [] (inr refl) (inr refl) refl refl refl refl one_class-SameClasses
