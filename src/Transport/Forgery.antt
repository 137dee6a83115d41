-- ===== src/Transport/Forgery.antt =====
-- Frames whose authentication code is not the expected one.
use trinity.Prelude.{
  ◌≡◌, ◌≢◌, refl, sym, true, false, ◌++◌, length, length-append, arith, ◌==◌, Bool-cases, inl, inr,
}
use trinity.Prelude.Bytes.{Bytes, equal_bytes, equal_bytes_iff}
use trinity.Prelude.Exec.{err, malformed_message, decryption_error}
use trinity.Transport.Crypto.{Crypto, IsCrypto}
use trinity.Transport.Frames.{Transport, decrypt_header, recv}
use trinity.Transport.Slices.{take-append, drop-append, take_all}
use trinity.Transport.Sealing.{code, length-code, after_header, header_sxor}
use trinity.Transport.Frame.{read_lem}

module _ {Aes Mac HeaderData : Type 0} (crypto : Crypto Aes Mac HeaderData)
    (law : IsCrypto crypto) where
  decrypt_forged :
      (ciphertext mac : Bytes) (r : Transport Aes Mac)
      → length ciphertext ≡ 16
      → length mac ≡ 16
      → mac ≢ code crypto law (after_header crypto law r.ingress_mac ciphertext)
      → decrypt_header crypto (ciphertext ++ mac) r ≡ (
        err decryption_error,
        record r { ingress_mac = after_header crypto law r.ingress_mac ciphertext },
      )
  unfolding decrypt_header
  decrypt_forged ciphertext mac r h k forged =
      let m = r.ingress_mac in
      let expected = code crypto law (after_header crypto law m ciphertext) in
      let total : (length (ciphertext ++ mac) == 32) ≡ true =
        ground (arith, length-append ciphertext mac) in
      let mixer = law.length-mac_enc (code crypto law m) (length-code crypto law m) in
      let differs : equal_bytes expected mac ≡ false =
        elim (Bool-cases (equal_bytes expected mac)) [
          | inl e ↦ absurd (forged (sym ((equal_bytes_iff expected mac).0 e)))
          | inr e ↦ e
        ] in
      rw
        (
          total,
          take-append 16 ciphertext mac h,
          drop-append 16 ciphertext mac h,
          take_all 16 (crypto.mac_enc (code crypto law m)) mixer,
          header_sxor crypto law m ciphertext h,
          differs,
        )
        refl

  -- A header with another authentication code than the expected one is reported as a
  -- MalformedMessage: its 32 bytes are read, and nothing is decrypted.
  pub recv_forged :
      (ciphertext mac rest : Bytes) (r : Transport Aes Mac)
      → length ciphertext ≡ 16
      → length mac ≡ 16
      → r.incoming ≡ (ciphertext ++ mac) ++ rest
      → mac ≢ code crypto law (after_header crypto law r.ingress_mac ciphertext)
      → recv crypto r ≡ (
        err malformed_message,
        record r {
          incoming = rest;
          ingress_mac = after_header crypto law r.ingress_mac ciphertext;
        },
      )
  unfolding recv
  recv_forged ciphertext mac rest r h k e forged =
      let size : length (ciphertext ++ mac) ≡ 32 = omega (arith, length-append ciphertext mac) in
      let r1 : Transport Aes Mac = record r { incoming = rest } in
      rw
        (
          read_lem crypto law 32 (ciphertext ++ mac) rest r size e,
          decrypt_forged ciphertext mac r1 h k forged,
        )
        refl
