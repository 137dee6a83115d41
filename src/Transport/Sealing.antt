-- ===== src/Transport/Sealing.antt =====
-- What `_encrypt` writes, `_decrypt_header` and `_decrypt_body` read.
use trinity.Prelude.{
  ℕ, ◌+◌, ◌≡◌, ◌∙◌, refl, sym, true, false, ◌++◌, length, length-append, take, arith, ◌==◌, ltb,
}
use mathlib.Core.List.{append_assoc}
use trinity.Prelude.Bytes.{Bytes}
use trinity.Prelude.Exec.{ok}
use trinity.Transport.Crypto.{Crypto, IsCrypto}
use trinity.Transport.Frames.{
  Transport, roundup_16, sxor, xor_bytes, encrypt, decrypt_header, decrypt_body,
}
use trinity.Transport.Slices.{
  take-append, drop-append, take_all, length-take_le, sxor_same_length, equal_bytes_self,
}

module _ {Aes Mac HeaderData : Type 0} (crypto : Crypto Aes Mac HeaderData)
    (law : IsCrypto crypto) where
  -- The authentication code of a hash object.
  abbrev pub code : Mac → Bytes
  code m = take 16 (crypto.mac_digest m)

  pub length-code : (m : Mac) → length (code m) ≡ 16
  length-code m = length-take_le 16 (crypto.mac_digest m) (omega (arith, law.length-digest m))

  -- The hash object after a header, and after a frame.
  abbrev pub after_header : Mac → Bytes → Mac
  after_header m ciphertext = crypto.mac_update m (xor_bytes (crypto.mac_enc (code m)) ciphertext)

  abbrev pub after_frame : Mac → Bytes → Mac
  after_frame m ciphertext =
      let m' = crypto.mac_update m ciphertext in
      crypto.mac_update m' (xor_bytes (crypto.mac_enc (code m')) (code m'))

  abbrev pub sealed_header : Aes → Mac → Bytes → Bytes
  sealed_header a m header = let c = (crypto.aes_enc a header).0 in c ++ code (after_header m c)

  abbrev pub sealed_frame : Aes → Mac → Bytes → Bytes
  sealed_frame a m frame = let c = (crypto.aes_enc a frame).0 in c ++ code (after_frame m c)

  pub header_sxor :
      (m : Mac) (c : Bytes)
      → length c ≡ 16
      → sxor (crypto.mac_enc (code m)) c ≡ ok (xor_bytes (crypto.mac_enc (code m)) c)
  header_sxor m c h =
      sxor_same_length (crypto.mac_enc (code m)) c
        (law.length-mac_enc (code m) (length-code m) ∙ sym h)

  pub decrypt_header_lem :
      (header : Bytes) (m : Mac) (r : Transport Aes Mac)
      → length header ≡ 16
      → r.ingress_mac ≡ m
      → decrypt_header crypto (sealed_header r.aes_dec m header) r ≡ (
        ok header,
        record r {
          aes_dec = (crypto.aes_enc r.aes_dec header).1;
          ingress_mac = after_header m (crypto.aes_enc r.aes_dec header).0;
        },
      )
  unfolding decrypt_header
  decrypt_header_lem header m r h e =
      let c = (crypto.aes_enc r.aes_dec header).0 in
      let mac = code (after_header m c) in
      let size : length c ≡ 16 = law.length-enc r.aes_dec header ∙ h in
      let total : (length (c ++ mac) == 32) ≡ true =
        ground (arith, length-append c mac, length-code (after_header m c)) in
      let mixer = law.length-mac_enc (code m) (length-code m) in
      rw
        (
          total,
          e,
          take-append 16 c mac size,
          drop-append 16 c mac size,
          take_all 16 (crypto.mac_enc (code m)) mixer,
          header_sxor m c size,
          equal_bytes_self mac,
          law.dec-enc r.aes_dec header,
        )
        refl

  pub decrypt_body_lem :
      (frame : Bytes) (size : ℕ) (m : Mac) (r : Transport Aes Mac)
      → length frame ≡ roundup_16 size
      → r.ingress_mac ≡ m
      → decrypt_body crypto (sealed_frame r.aes_dec m frame) size r ≡ (
        ok (take size frame),
        record r {
          aes_dec = (crypto.aes_enc r.aes_dec frame).1;
          ingress_mac = after_frame m (crypto.aes_enc r.aes_dec frame).0;
        },
      )
  unfolding decrypt_body
  decrypt_body_lem frame size m r h e =
      let c = (crypto.aes_enc r.aes_dec frame).0 in
      let mac = code (after_frame m c) in
      let m' = crypto.mac_update m c in
      let enough : length c ≡ roundup_16 size = law.length-enc r.aes_dec frame ∙ h in
      let total : ltb (length (c ++ mac)) (roundup_16 size + 16) ≡ false =
        ground (arith, length-append c mac, length-code (after_frame m c)) in
      rw
        (
          total,
          e,
          take-append (roundup_16 size) c mac enough,
          drop-append (roundup_16 size) c mac enough,
          take_all 16 mac (length-code (after_frame m c)),
          header_sxor m' (code m') (length-code m'),
          equal_bytes_self mac,
          law.dec-enc r.aes_dec frame,
        )
        refl

  pub encrypt_lem :
      (header frame : Bytes) (s : Transport Aes Mac)
      → length header ≡ 16
      → encrypt crypto header frame s ≡ (
          let a = (crypto.aes_enc s.aes_enc header).1 in
          let m = after_header s.egress_mac (crypto.aes_enc s.aes_enc header).0 in
          (
            ok (sealed_header s.aes_enc s.egress_mac header ++ sealed_frame a m frame),
            record s {
              aes_enc = (crypto.aes_enc a frame).1;
              egress_mac = after_frame m (crypto.aes_enc a frame).0;
            },
          ))
  unfolding encrypt
  encrypt_lem header frame s h =
      let c = (crypto.aes_enc s.aes_enc header).0 in
      let a = (crypto.aes_enc s.aes_enc header).1 in
      let m = after_header s.egress_mac c in
      let f = (crypto.aes_enc a frame).0 in
      let m' = crypto.mac_update m f in
      let size : length c ≡ 16 = law.length-enc s.aes_enc header ∙ h in
      let whole : (length header == 16) ≡ true = ground arith in
      rw
        (
          whole,
          header_sxor s.egress_mac c size,
          header_sxor m' (code m') (length-code m'),
          append_assoc c (code m) (f ++ code (after_frame m f)),
        )
        refl
