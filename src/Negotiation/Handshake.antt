-- ===== src/Negotiation/Handshake.antt =====
-- p2p/handshake.py, `_do_p2p_handshake` and `negotiate_protocol_handshakes` up to the handshakers of
-- the sub-protocols. A handshaker is the class of its protocol, and the messages of the other peer
-- are the stream that the transport gives.
use trinity.Prelude.Members.{pair_discrete}
use trinity.Prelude.{
  ℕ, suc, Bool, true, false, Option, none, some, List, [], ◌∷◌, ℕ_discrete, ◌==◌, ◌&&◌, not, ltb,
  leb, length, if◌then◌else◌,
}
use trinity.Prelude.Bytes.{Bytes}
use trinity.Prelude.Dict
use trinity.Prelude.Dict.{Dict}
use trinity.Prelude.Exec.{
  Result, key_error, exception, no_matching_peer_capabilities, handshake_failure, too_many_peers,
}
use trinity.Prelude.Fallible.{pure, raise, raise_if, require, ◌>>=◌, ◌>>◌}
use trinity.Negotiation.Capabilities.{Capability, select_capabilities}
use trinity.Negotiation.Protocols.{Name, Name-discrete, name_order, ProtocolType, as_capability}
use trinity.Negotiation.Instances.{
  Protocol, new_p2p_protocol_v4, new_p2p_protocol_v5, get_cmd_offsets, instances,
}

pub record HelloPayload : Type 0 where
  pub version : ℕ
  pub client_version_string : Bytes
  pub capabilities : List (Capability Name)
  pub listen_port : ℕ
  pub remote_public_key : Bytes

-- What the handshake asks of a message.
pub data Incoming : Type 0 where
  hello : HelloPayload → Incoming
  disconnect : ℕ → Incoming
  other : Incoming

-- `DisconnectReason.TOO_MANY_PEERS`
abbrev pub too_many_peers_reason : ℕ
too_many_peers_reason = 4

pub record DevP2PReceipt : Type 0 where
  pub protocol : Protocol
  pub version : ℕ
  pub client_version_string : Bytes
  pub capabilities : List (Capability Name)
  pub remote_public_key : Bytes
  pub listen_port : ℕ

abbrev pub devp2p_v5 : ℕ
devp2p_v5 = 5

abbrev pub new_receipt : HelloPayload → Protocol → DevP2PReceipt
new_receipt payload protocol = record {
  protocol = protocol;
  version = payload.version;
  client_version_string = payload.client_version_string;
  capabilities = payload.capabilities;
  remote_public_key = payload.remote_public_key;
  listen_port = payload.listen_port;
}

-- The base protocol after the handshake.
unfoldable pub upgraded : Protocol → HelloPayload → Result Protocol
upgraded base_protocol payload =
    if leb devp2p_v5 base_protocol.protocol_type.version && leb devp2p_v5 payload.version
    then new_p2p_protocol_v5 0 true
    else pure base_protocol

unfoldable pub do_p2p_handshake : Protocol → List Incoming → Result (DevP2PReceipt × Protocol)
do_p2p_handshake base_protocol [] = raise handshake_failure
do_p2p_handshake base_protocol (Incoming.disconnect reason ∷ stream) = do
  raise_if too_many_peers (reason == too_many_peers_reason)
  raise handshake_failure
do_p2p_handshake base_protocol (Incoming.other ∷ stream) = raise handshake_failure
do_p2p_handshake base_protocol (Incoming.hello payload ∷ stream) = do
  protocol ← upgraded base_protocol payload
  pure (new_receipt payload protocol, protocol)

-- A class is what makes its instances.
unfoldable pub get_base_protocol_class : ℕ → Result (ℕ → Bool → Result Protocol)
get_base_protocol_class version =
    if version == 5
    then pure new_p2p_protocol_v5
    else if version == 4
    then pure new_p2p_protocol_v4
    else raise exception

abbrev or_zero : Option ℕ → ℕ
or_zero none = 0
or_zero (some n) = n

-- p2p/_utils.py: the values of `collections.Counter(elements)` that are counted more than once.
module _ {A : Type 0} (dec : Discrete A) where
  unfoldable pub count_into : Dict A ℕ → List A → Dict A ℕ
  count_into counts [] = counts
  count_into counts (x ∷ xs) =
      count_into (Dict.put dec counts x (suc (or_zero (Dict.get dec counts x)))) xs

  abbrev pub counted_twice : Dict A ℕ → List A
  counted_twice [] = []
  counted_twice (e ∷ counts) =
      let rest = counted_twice counts in if ltb 1 e.1 then e.0 ∷ rest else rest

  unfoldable pub duplicates : List A → List A
  unfolding count_into
  duplicates elements = counted_twice (count_into [] elements)

abbrev pub capabilities_of : List ProtocolType → List (Capability Name)
capabilities_of [] = []
capabilities_of (cls ∷ classes) = as_capability cls ∷ capabilities_of classes

abbrev pub Capability-discrete : Discrete (Capability Name)
Capability-discrete = pair_discrete Name-discrete ℕ_discrete

-- `dict(zip(local_capabilities, protocol_handshakers))`
unfoldable pub by_capability :
    Dict (Capability Name) ProtocolType → List ProtocolType → Dict (Capability Name) ProtocolType
by_capability d [] = d
by_capability d (h ∷ hs) = by_capability (Dict.put Capability-discrete d (as_capability h) h) hs

unfoldable pub selected_types :
    Dict (Capability Name) ProtocolType → List (Capability Name) → Result (List ProtocolType)
selected_types d [] = pure []
selected_types d (c ∷ cs) = do
  handshaker ← require key_error (Dict.get Capability-discrete d c)
  rest ← selected_types d cs
  pure (handshaker ∷ rest)

abbrev pub is_empty : {A : Type 0} → List A → Bool
is_empty [] = true
is_empty (x ∷ xs) = false

-- What the multiplexer is made of.
pub record Negotiated : Type 0 where
  pub receipt : DevP2PReceipt
  pub base_protocol : Protocol
  pub protocols : List Protocol

-- The protocols that the remote capabilities lead to.
unfoldable pub negotiate_types :
    List (Capability Name) → List ProtocolType → Result (List ProtocolType)
unfolding by_capability selected_types select_capabilities
negotiate_types remote_capabilities protocol_handshakers = do
  selected_capabilities ←
      select_capabilities Name-discrete name_order remote_capabilities
        (capabilities_of protocol_handshakers)
  raise_if no_matching_peer_capabilities (ltb (length selected_capabilities) 1)
  selected_types (by_capability [] protocol_handshakers) selected_capabilities

unfoldable pub negotiate_protocols : ℕ → List ProtocolType → List Incoming → Result Negotiated
unfolding do_p2p_handshake get_base_protocol_class duplicates
negotiate_protocols version protocol_handshakers stream = do
  p2p_protocol_class ← get_base_protocol_class version
  raise_if exception
      (not (is_empty (duplicates Capability-discrete (capabilities_of protocol_handshakers))))
  ephemeral_base_protocol ← p2p_protocol_class 0 false
  (receipt, base_protocol) ← do_p2p_handshake ephemeral_base_protocol stream
  types ← negotiate_types receipt.capabilities protocol_handshakers
  pure (record {
    receipt = receipt;
    base_protocol = base_protocol;
    protocols = instances base_protocol.snappy_support types (get_cmd_offsets types);
  })
