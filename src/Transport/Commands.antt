-- ===== src/Transport/Commands.antt =====
-- Commands that go over a connection one after another.
use trinity.Prelude.{ℕ, zero, suc, Bool, List, [], ◌∷◌}
use trinity.Prelude.Bytes.{Bytes}
use trinity.Prelude.Exec.{pure, ◌>>=◌, ◌>>◌}
use trinity.Transport.Crypto.{Crypto}
use trinity.Transport.Frames.{Method, lift, send, recv}
use trinity.Transport.Messages.{encode, decode}

module _ {Aes Mac HeaderData : Type 0} (crypto : Crypto Aes Mac HeaderData) where
  -- p2p/protocol.py, `BaseProtocol.send`, once the number of the command is known.
  unfoldable pub send_command : ℕ → Bool → Bytes → Method crypto Unit
  unfolding encode
  send_command cmd_id snappy_support payload = do
    message ← lift crypto (encode crypto cmd_id snappy_support payload)
    send crypto message

  -- What p2p/multiplexer.py, `stream_transport_messages`, receives and decodes in one round. The
  -- lookup of the number is in Negotiation/Routing.
  unfoldable pub receive_command : Bool → Method crypto (ℕ × Bytes)
  unfolding decode
  receive_command snappy_support = do
    msg ← recv crypto
    payload ← lift crypto (decode crypto msg snappy_support)
    pure (msg.command_id, payload)

  unfoldable pub send_commands : Bool → List (ℕ × Bytes) → Method crypto Unit
  send_commands snappy_support [] = pure tt
  send_commands snappy_support ((cmd_id, payload) ∷ commands) = do
    send_command cmd_id snappy_support payload
    send_commands snappy_support commands

  unfoldable pub receive_commands : Bool → ℕ → Method crypto (List (ℕ × Bytes))
  receive_commands snappy_support zero = pure []
  receive_commands snappy_support (suc n) = do
    first ← receive_command snappy_support
    rest ← receive_commands snappy_support n
    pure (first ∷ rest)
