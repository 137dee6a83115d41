-- ===== src/Negotiation/Routing.antt =====
-- p2p/multiplexer.py, `stream_transport_messages`: which protocol and which command a number means.
use trinity.Prelude.{ℕ, ◌+◌, List, [], ◌∷◌, ℕ_discrete, ltb, if◌then◌else◌}
use trinity.Prelude.Dict
use trinity.Prelude.Dict.{Dict}
use trinity.Prelude.Exec.{
  Exec, Result, ok, err, key_error, unknown_protocol_command, pure, gets, require, modify, ◌>>=◌,
  ◌>>◌,
}
use trinity.Negotiation.Protocols.{Command}
use trinity.Negotiation.Instances.{Protocol, get_command_type_for_command_id}

-- The loop with its `else`.
unfoldable pub find_protocol : List Protocol → ℕ → Result Protocol
find_protocol [] command_id = err unknown_protocol_command
find_protocol (p ∷ ps) command_id =
    let rest = find_protocol ps command_id in
    if ltb command_id (p.command_id_offset + p.protocol_type.command_length) then ok p else rest

module _ (base_protocol : Protocol) (protocols : List Protocol) where
  unfoldable pub look_up : ℕ → Result Protocol
  unfolding find_protocol
  look_up command_id =
      if ltb command_id base_protocol.protocol_type.command_length
      then ok base_protocol
      else find_protocol protocols command_id

  -- Its state is `command_id_cache`.
  abbrev pub Cached : Type 0 → Type 0
  Cached A = Exec (Dict ℕ Protocol) A

  unfoldable pub fill_cache : ℕ → Cached Unit
  unfolding look_up
  fill_cache command_id = do
    protocol ← λ cache. (look_up command_id, cache)
    modify (λ cache. Dict.put ℕ_discrete cache command_id protocol)

  -- The lookup for one message.
  unfoldable pub route : ℕ → Cached (Protocol × Command)
  route command_id = do
    known ← gets (λ cache. Dict.has ℕ_discrete cache command_id)
    if known then pure tt else fill_cache command_id
    msg_proto ← λ cache. require key_error (Dict.get ℕ_discrete cache command_id) cache
    command_type ← λ cache. (get_command_type_for_command_id msg_proto command_id, cache)
    pure (msg_proto, command_type)

  -- The lookups for the messages of a stream, up to the first that raises.
  unfoldable pub route_all : List ℕ → Cached (List (Protocol × Command))
  route_all [] = pure []
  route_all (command_id ∷ ids) = do
    first ← route command_id
    rest ← route_all ids
    pure (first ∷ rest)
