-- ===== src/Negotiation/Instances.antt =====
-- p2p/protocol.py: a protocol on a connection, which knows the number of each of its commands, and
-- the offsets that the protocols of a connection get.
use trinity.Prelude.{ℕ, ◌+◌, Bool, false, List, [], ◌∷◌, ℕ_discrete, ◌==◌, not}
use trinity.Prelude.Dict
use trinity.Prelude.Dict.{Dict}
use trinity.Prelude.Exec.{Result, key_error, type_error}
use trinity.Prelude.Fallible.{pure, raise_if, require, ◌>>◌}
use trinity.Negotiation.Protocols.{
  Command, Command-discrete, protocol_command_id, ProtocolType, p2p_protocol_command_length,
  p2p_protocol_v4, p2p_protocol_v5,
}

pub record Protocol : Type 0 where
  pub protocol_type : ProtocolType
  pub command_id_offset : ℕ
  pub snappy_support : Bool
  pub command_id_by_type : Dict Command ℕ
  pub command_type_by_id : Dict ℕ Command

-- The two dictionary comprehensions of `BaseProtocol.__init__`.
unfoldable pub ids_into : ℕ → Dict Command ℕ → List Command → Dict Command ℕ
ids_into offset d [] = d
ids_into offset d (c ∷ cs) =
    ids_into offset (Dict.put Command-discrete d c (offset + protocol_command_id c)) cs

unfoldable pub types_into : Dict ℕ Command → Dict Command ℕ → Dict ℕ Command
types_into t [] = t
types_into t (e ∷ d) = types_into (Dict.put ℕ_discrete t e.1 e.0) d

unfoldable pub new_protocol : ProtocolType → ℕ → Bool → Protocol
unfolding ids_into types_into
new_protocol cls command_id_offset snappy_support =
    let ids = ids_into command_id_offset [] cls.commands in
    record {
      protocol_type = cls;
      command_id_offset = command_id_offset;
      snappy_support = snappy_support;
      command_id_by_type = ids;
      command_type_by_id = types_into [] ids;
    }

-- `BaseP2PProtocol.__init__`
unfoldable pub new_base_protocol : ProtocolType → ℕ → Bool → Result Protocol
unfolding new_protocol
new_base_protocol cls command_id_offset snappy_support = do
  raise_if type_error (not (command_id_offset == 0))
  pure (new_protocol cls command_id_offset snappy_support)

-- `P2PProtocolV4.__init__`
unfoldable pub new_p2p_protocol_v4 : ℕ → Bool → Result Protocol
unfolding new_base_protocol
new_p2p_protocol_v4 command_id_offset snappy_support = do
  raise_if type_error snappy_support
  new_base_protocol p2p_protocol_v4 command_id_offset false

unfoldable pub new_p2p_protocol_v5 : ℕ → Bool → Result Protocol
unfolding new_base_protocol
new_p2p_protocol_v5 command_id_offset snappy_support =
    new_base_protocol p2p_protocol_v5 command_id_offset snappy_support

unfoldable pub get_command_type_for_command_id : Protocol → ℕ → Result Command
get_command_type_for_command_id p command_id =
    require key_error (Dict.get ℕ_discrete p.command_type_by_id command_id)

-- The number that `send` gives a command.
unfoldable pub command_id_of : Protocol → Command → Result ℕ
command_id_of p command_type =
    require key_error (Dict.get Command-discrete p.command_id_by_type command_type)

-- `accumulate`, which yields the start and every sum after it.
abbrev pub accumulate_lengths : ℕ → List ProtocolType → List ℕ
accumulate_lengths offset [] = offset ∷ []
accumulate_lengths offset (cls ∷ classes) =
    offset ∷ accumulate_lengths (offset + cls.command_length) classes

-- `[:-1]`
abbrev pub all_but_last : List ℕ → List ℕ
all_but_last [] = []
all_but_last (x ∷ []) = []
all_but_last (x ∷ y ∷ ys) = x ∷ all_but_last (y ∷ ys)

unfoldable pub get_cmd_offsets : List ProtocolType → List ℕ
get_cmd_offsets protocol_types =
    all_but_last (accumulate_lengths p2p_protocol_command_length protocol_types)

-- The protocol instances that `negotiate_protocol_handshakes` makes, by `zip`.
unfoldable pub instances : Bool → List ProtocolType → List ℕ → List Protocol
unfolding new_protocol
instances snappy_support [] offsets = []
instances snappy_support (cls ∷ classes) [] = []
instances snappy_support (cls ∷ classes) (offset ∷ offsets) =
    new_protocol cls offset snappy_support ∷ instances snappy_support classes offsets
