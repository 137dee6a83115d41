-- ===== src/Transport/Crypto.antt =====
-- What p2p/transport.py and p2p/commands.py use of the packages cryptography, pysha3, rlp and
-- python-snappy. A cipher and a hash object are states that every `update` moves on.
use trinity.Prelude.{ℕ, ◌<◌, ◌≡◌, Option, some, [], ◌∷◌, ◌++◌, length, replicate}
use trinity.Prelude.Bytes.{Bytes}

pub record Crypto (Aes Mac HeaderData : Type 0) : Type 0 where
  -- The encryptor and the decryptor of AES in counter mode.
  pub aes_enc : Aes → Bytes → Bytes × Aes
  pub aes_dec : Aes → Bytes → Bytes × Aes
  -- AES in ECB mode, whose blocks do not depend on each other.
  pub mac_enc : Bytes → Bytes
  -- `keccak_256().update` and `.digest`.
  pub mac_update : Mac → Bytes → Mac
  pub mac_digest : Mac → Bytes
  -- `rlp.encode` and `rlp.decode` of an integer, and of the data in a frame's header.
  pub encode_int : ℕ → Bytes
  pub decode_int : Bytes → Option ℕ
  pub encode_header_data : HeaderData → Bytes
  pub decode_header_data : Bytes → Option HeaderData
  pub compress : Bytes → Bytes
  pub decompress : Bytes → Option Bytes

-- `rlp.encode([0, 0])`
abbrev pub rlpx_header_data : Bytes
rlpx_header_data = 194 ∷ 128 ∷ 128 ∷ []

-- What the packages document.
pub record IsCrypto {Aes Mac HeaderData : Type 0} (c : Crypto Aes Mac HeaderData) : Type 0 where
  -- A decryptor undoes an encryptor that is at the same place of the key stream.
  pub dec-enc : (a : Aes) (xs : Bytes) → c.aes_dec a (c.aes_enc a xs).0 ≡ (xs, (c.aes_enc a xs).1)
  pub length-enc : (a : Aes) (xs : Bytes) → length (c.aes_enc a xs).0 ≡ length xs
  pub length-mac_enc : (xs : Bytes) → length xs ≡ 16 → length (c.mac_enc xs) ≡ 16
  pub length-digest : (m : Mac) → length (c.mac_digest m) ≡ 32
  -- An integer below 128 is one byte.
  pub length-encode_int : (n : ℕ) → n < 128 → length (c.encode_int n) ≡ 1
  pub decode-encode_int : (n : ℕ) → n < 128 → c.decode_int (c.encode_int n) ≡ some n
  -- The decoder, which is not strict, passes over the padding.
  pub header_data : HeaderData
  pub decode_header : c.decode_header_data (rlpx_header_data ++ replicate 10 0) ≡ some header_data
  pub encode_header : c.encode_header_data header_data ≡ rlpx_header_data
  pub decompress-compress : (xs : Bytes) → c.decompress (c.compress xs) ≡ some xs
