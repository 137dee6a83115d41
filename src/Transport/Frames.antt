-- ===== src/Transport/Frames.antt =====
-- p2p/transport.py, `Transport`: frames with a header and a body, each with its authentication code.
use Prim.Native.Nat.{bit_xor}
use trinity.Prelude.{
  ℕ, ◌+◌, ◌-◌, ◌*◌, ◌%◌, Bool, none, some, [], ◌∷◌, ◌++◌, not, length, take, drop, replicate, ltb,
  ◌==◌, if◌then◌else◌,
}
use trinity.Prelude.Bytes.{Bytes, equal_bytes}
use trinity.Prelude.Exec.{
  Exec, Result, Error, ok, err, value_error, exception, malformed_message, decryption_error,
  peer_connection_lost, deserialization_error, pure, gets, require, modify, raise_if, ◌>>=◌, ◌>>◌,
}
use trinity.Transport.Crypto.{Crypto}

-- p2p/message.py, `Message`
pub record Message : Type 0 where
  pub header : Bytes
  pub body : Bytes
  pub command_id : ℕ

abbrev pub encoded_payload : Message → Bytes
encoded_payload msg = drop 1 msg.body

abbrev pub header_len : ℕ
header_len = 16

abbrev pub mac_len : ℕ
mac_len = 16

-- p2p/_utils.py
unfoldable pub roundup_16 : ℕ → ℕ
roundup_16 x = let remainder = x % 16 in if not (remainder == 0) then x + (16 - remainder) else x

abbrev pub xor_bytes : Bytes → Bytes → Bytes
xor_bytes [] ys = []
xor_bytes (x ∷ xs) [] = []
xor_bytes (x ∷ xs) (y ∷ ys) = bit_xor x y ∷ xor_bytes xs ys

unfoldable pub sxor : Bytes → Bytes → Result Bytes
sxor s1 s2 = if not (length s1 == length s2) then err value_error else ok (xor_bytes s1 s2)

-- `int.from_bytes(..., 'big')`
abbrev pub from_big_endian : ℕ → Bytes → ℕ
from_big_endian n [] = n
from_big_endian n (x ∷ xs) = from_big_endian (n * 256 + x) xs

-- `data.ljust(roundup_16(len(data)), b'\x00')`
unfoldable pub padded : Bytes → Bytes
unfolding roundup_16
padded bytes = bytes ++ replicate (roundup_16 (length bytes) - length bytes) 0

-- One end of a connection: what is still to be read, and what was written.
pub record Transport (Aes Mac : Type 0) : Type 0 where
  pub aes_enc : Aes
  pub aes_dec : Aes
  pub egress_mac : Mac
  pub ingress_mac : Mac
  pub incoming : Bytes
  pub outgoing : Bytes
  pub is_closing : Bool

module _ {Aes Mac HeaderData : Type 0} (crypto : Crypto Aes Mac HeaderData) where
  abbrev pub Method : Type 0 → Type 0
  Method A = Exec (Transport Aes Mac) A

  abbrev pub lift : {A : Type 0} → Result A → Method A
  lift r s = (r, s)

  unfoldable pub new_message : Bytes → Bytes → Result Message
  new_message header body = elim (crypto.decode_int (take 1 body)) [
    | none ↦ err deserialization_error
    | some n ↦ ok (record { header = header; body = body; command_id = n })
  ]

  -- `_egress_mac.update`
  abbrev pub update_egress : Bytes → Method Unit
  update_egress bytes = modify (λ s. record s { egress_mac = crypto.mac_update s.egress_mac bytes })

  abbrev pub egress_digest : Method Bytes
  egress_digest = gets (λ s. take header_len (crypto.mac_digest s.egress_mac))

  abbrev pub update_ingress : Bytes → Method Unit
  update_ingress bytes =
      modify (λ s. record s { ingress_mac = crypto.mac_update s.ingress_mac bytes })

  abbrev pub ingress_digest : Method Bytes
  ingress_digest = gets (λ s. take mac_len (crypto.mac_digest s.ingress_mac))

  abbrev pub aes_enc_update : Bytes → Method Bytes
  aes_enc_update bytes s = (
    ok (crypto.aes_enc s.aes_enc bytes).0,
    record s { aes_enc = (crypto.aes_enc s.aes_enc bytes).1 },
  )

  abbrev pub aes_dec_update : Bytes → Method Bytes
  aes_dec_update bytes s = (
    ok (crypto.aes_dec s.aes_dec bytes).0,
    record s { aes_dec = (crypto.aes_dec s.aes_dec bytes).1 },
  )

  -- `_encrypt`
  unfoldable pub encrypt : Bytes → Bytes → Method Bytes
  unfolding sxor
  encrypt header frame = do
    raise_if value_error (not (length header == header_len))
    header_ciphertext ← aes_enc_update header
    mac_secret ← egress_digest
    header_mixed ← lift (sxor (crypto.mac_enc mac_secret) header_ciphertext)
    update_egress header_mixed
    header_mac ← egress_digest
    frame_ciphertext ← aes_enc_update frame
    update_egress frame_ciphertext
    fmac_seed ← egress_digest
    mac_secret ← egress_digest
    frame_mixed ← lift (sxor (crypto.mac_enc mac_secret) fmac_seed)
    update_egress frame_mixed
    frame_mac ← egress_digest
    pure (header_ciphertext ++ (header_mac ++ (frame_ciphertext ++ frame_mac)))

  -- `_decrypt_header`
  unfoldable pub decrypt_header : Bytes → Method Bytes
  unfolding sxor
  decrypt_header bytes = do
    raise_if value_error (not (length bytes == header_len + mac_len))
    let header_ciphertext = take header_len bytes
    let header_mac = drop header_len bytes
    mac_secret ← ingress_digest
    let aes = take header_len (crypto.mac_enc mac_secret)
    mixed ← lift (sxor aes header_ciphertext)
    update_ingress mixed
    expected_header_mac ← ingress_digest
    raise_if decryption_error (not (equal_bytes expected_header_mac header_mac))
    aes_dec_update header_ciphertext

  -- `_decrypt_body`
  unfoldable pub decrypt_body : Bytes → ℕ → Method Bytes
  unfolding sxor roundup_16
  decrypt_body bytes body_size = do
    let read_size = roundup_16 body_size
    raise_if value_error (ltb (length bytes) (read_size + mac_len))
    let frame_ciphertext = take read_size bytes
    let frame_mac = take mac_len (drop read_size bytes)
    update_ingress frame_ciphertext
    fmac_seed ← ingress_digest
    mixed ← lift (sxor (crypto.mac_enc fmac_seed) fmac_seed)
    update_ingress mixed
    expected_frame_mac ← ingress_digest
    raise_if decryption_error (not (equal_bytes expected_frame_mac frame_mac))
    frame ← aes_dec_update frame_ciphertext
    pure (take body_size frame)

  -- `_get_frame_size`, where `struct.unpack` wants four bytes.
  unfoldable pub get_frame_size : Bytes → Result ℕ
  get_frame_size header =
      let encoded_size = 0 ∷ take 3 header in
      if length encoded_size == 4 then ok (from_big_endian 0 encoded_size) else err exception

  -- `readexactly`
  unfoldable pub read : ℕ → Method Bytes
  read n = do
    incoming ← gets (λ s. s.incoming)
    raise_if peer_connection_lost (ltb (length incoming) n)
    modify (λ s. record s { incoming = drop n incoming })
    pure (take n incoming)

  -- `except (ValueError, DecryptionError)`
  abbrev pub as_malformed : Error → Error
  as_malformed value_error = malformed_message
  as_malformed decryption_error = malformed_message
  as_malformed e = e

  abbrev pub translate : Result Bytes → Result Bytes
  translate (ok a) = ok a
  translate (err e) = err (as_malformed e)

  abbrev pub catching : Method Bytes → Method Bytes
  catching m s = (translate (m s).0, (m s).1)

  unfoldable pub recv : Method Message
  unfolding new_message decrypt_header decrypt_body get_frame_size read roundup_16
  recv = do
    header_bytes ← read (header_len + mac_len)
    padded_header ← catching (decrypt_header header_bytes)
    frame_size ← lift (get_frame_size padded_header)
    let read_size = roundup_16 frame_size
    frame_data ← read (read_size + mac_len)
    body ← catching (decrypt_body frame_data frame_size)
    header_data ← require malformed_message (crypto.decode_header_data (drop 3 padded_header))
    let header = take 3 padded_header ++ crypto.encode_header_data header_data
    lift (new_message header body)

  unfoldable pub send : Message → Method Unit
  unfolding encrypt padded
  send message = do
    closing ← gets (λ s. s.is_closing)
    raise_if peer_connection_lost closing
    ciphertext ← encrypt (padded message.header) (padded message.body)
    modify (λ s. record s { outgoing = s.outgoing ++ ciphertext })
