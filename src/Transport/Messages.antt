-- ===== src/Transport/Messages.antt =====
-- p2p/commands.py, `BaseCommand`: a command as a message. The payload stands after its serialization.
use trinity.Prelude.{ℕ, ◌+◌, Bool, ◌++◌, length, ltb, bit_length, if◌then◌else◌}
use trinity.Prelude.Bytes.{Bytes, to_bytes}
use trinity.Prelude.Exec.{Result, value_error, malformed_message}
use trinity.Prelude.Fallible.{pure, raise_if, require, ◌>>=◌, ◌>>◌}
use trinity.Transport.Crypto.{Crypto, rlpx_header_data}
use trinity.Transport.Frames.{Message, encoded_payload, new_message}

module _ {Aes Mac HeaderData : Type 0} (crypto : Crypto Aes Mac HeaderData) where
  unfoldable pub encode : ℕ → Bool → Bytes → Result Message
  encode cmd_id snappy_support raw_payload_data = do
    let payload_data = if snappy_support then crypto.compress raw_payload_data else raw_payload_data
    let cmd_id_data = crypto.encode_int cmd_id
    let frame_size = length cmd_id_data + length payload_data
    raise_if value_error (ltb 24 (bit_length frame_size))
    size ← to_bytes 3 frame_size
    new_message crypto (size ++ rlpx_header_data) (cmd_id_data ++ payload_data)

  unfoldable pub decode : Message → Bool → Result Bytes
  decode message snappy_support =
      if snappy_support
      then require malformed_message (crypto.decompress (encoded_payload message))
      else pure (encoded_payload message)
