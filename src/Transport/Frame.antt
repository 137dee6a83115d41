-- ===== src/Transport/Frame.antt =====
-- A message that `send` writes is the message that `recv` reads, and the two ends stay in step.
use trinity.Prelude.{
  ℕ, ◌+◌, ◌^◌, ◌<◌, ◌≡◌, ◌∙◌, refl, sym, ap, false, ◌++◌, length, length-append, take, drop,
  replicate, arith, ltb,
}
use mathlib.Core.List.{append_assoc}
use trinity.Prelude.Bytes.{Bytes, big_endian}
use trinity.Prelude.Exec.{ok}
use trinity.Transport.Crypto.{Crypto, IsCrypto, rlpx_header_data}
use trinity.Transport.Frames.{
  Transport, Message, roundup_16, padded, new_message, get_frame_size, read, recv, send,
}
use trinity.Transport.Slices.{
  take-append, drop-append, length-padded, take-padded, from_big_endian-big_endian,
}
use trinity.Transport.Sealing.{
  code, length-code, after_header, after_frame, sealed_header, sealed_frame, encrypt_lem,
  decrypt_header_lem, decrypt_body_lem,
}

module _ {Aes Mac HeaderData : Type 0} (crypto : Crypto Aes Mac HeaderData)
    (law : IsCrypto crypto) where
  -- The receiver is at the places in the key stream and in the hash where the sender is.
  abbrev pub InStep : Transport Aes Mac → Transport Aes Mac → Type 0
  InStep s r = (r.aes_dec ≡ s.aes_enc) × (r.ingress_mac ≡ s.egress_mac)

  -- What `encode` gives: the header tells the size of the body.
  abbrev pub IsFramed : Message → Type 0
  IsFramed message =
      (length message.body < 2 ^ 24)
      × (message.header ≡ big_endian 3 (length message.body) ++ rlpx_header_data)
      × (new_message crypto message.header message.body ≡ ok message)

  abbrev frame_header : ℕ → Bytes
  frame_header size = big_endian 3 size ++ (rlpx_header_data ++ replicate 10 0)

  padded_header :
      (message : Message)
      → IsFramed message
      → padded message.header ≡ frame_header (length message.body)
  unfolding padded roundup_16
  padded_header message h = rw h.1 refl

  -- What a message adds to the wire, and where it leaves cipher and hash.
  abbrev pub wire_of : Aes → Mac → Message → Bytes
  wire_of a m message =
      let header = padded message.header in
      sealed_header crypto law a m header
      ++ sealed_frame crypto law (crypto.aes_enc a header).1
          (after_header crypto law m (crypto.aes_enc a header).0) (padded message.body)

  abbrev pub next_aes : Aes → Message → Aes
  next_aes a message =
      (crypto.aes_enc (crypto.aes_enc a (padded message.header)).1 (padded message.body)).1

  abbrev pub next_mac : Aes → Mac → Message → Mac
  next_mac a m message =
      let header = padded message.header in
      after_frame crypto law (after_header crypto law m (crypto.aes_enc a header).0)
        (crypto.aes_enc (crypto.aes_enc a header).1 (padded message.body)).0

  length-header : (message : Message) → IsFramed message → length (padded message.header) ≡ 16
  length-header message h = rw (padded_header message h) refl

  pub send_lem :
      (message : Message) (s : Transport Aes Mac)
      → IsFramed message
      → s.is_closing ≡ false
      → send crypto message s ≡ (
        ok tt,
        record s {
          aes_enc = next_aes s.aes_enc message;
          egress_mac = next_mac s.aes_enc s.egress_mac message;
          outgoing = s.outgoing ++ wire_of s.aes_enc s.egress_mac message;
        },
      )
  unfolding send
  send_lem message s h open_ =
      simp
        (
          open_,
          encrypt_lem crypto law (padded message.header) (padded message.body) s
              (length-header message h),
        )
        refl

  frame_size_lem :
      (message : Message)
      → IsFramed message
      → get_frame_size crypto (padded message.header) ≡ ok (length message.body)
  unfolding get_frame_size
  frame_size_lem message h =
      rw (padded_header message h)
        (ap ok (from_big_endian-big_endian (length message.body) (omega (arith, h.0))))

  pub read_lem :
      (n : ℕ) (xs ys : Bytes) (r : Transport Aes Mac)
      → length xs ≡ n
      → r.incoming ≡ xs ++ ys
      → read crypto n r ≡ (ok xs, record r { incoming = ys })
  unfolding read
  read_lem n xs ys r h e =
      let enough : ltb (length (xs ++ ys)) n ≡ false = ground (arith, length-append xs ys) in
      rw (e, enough, take-append n xs ys h, drop-append n xs ys h) refl

  pub recv_lem :
      (message : Message) (r : Transport Aes Mac) (rest : Bytes)
      → IsFramed message
      → r.incoming ≡ wire_of r.aes_dec r.ingress_mac message ++ rest
      → recv crypto r ≡ (
        ok message,
        record r {
          aes_dec = next_aes r.aes_dec message;
          ingress_mac = next_mac r.aes_dec r.ingress_mac message;
          incoming = rest;
        },
      )
  unfolding recv
  recv_lem message r rest h e =
      let header = padded message.header in
      let body = padded message.body in
      let m = r.ingress_mac in
      let c = (crypto.aes_enc r.aes_dec header).0 in
      let a = (crypto.aes_enc r.aes_dec header).1 in
      let m' = after_header crypto law m c in
      let f = (crypto.aes_enc a body).0 in
      let first = sealed_header crypto law r.aes_dec m header in
      let second = sealed_frame crypto law a m' body in
      let size = length message.body in
      let first_size : length first ≡ 32 = omega (
        arith,
        length-append c (code crypto law m'),
        length-code crypto law m',
        law.length-enc r.aes_dec header,
        length-header message h,
      ) in
      let second_size : length second ≡ roundup_16 size + 16 = omega (
        arith,
        length-append f (code crypto law (after_frame crypto law m' f)),
        length-code crypto law (after_frame crypto law m' f),
        law.length-enc a body,
        length-padded message.body,
      ) in
      let named : new_message crypto (take 3 header ++ rlpx_header_data) message.body ≡ ok message =
        ap (λ z. new_message crypto z message.body)
          (ap (λ z. take 3 z ++ rlpx_header_data) (padded_header message h) ∙ sym h.1)
        ∙ h.2 in
      let r1 : Transport Aes Mac = record r { incoming = second ++ rest } in
      let r2 : Transport Aes Mac = record r1 { aes_dec = a; ingress_mac = m' } in
      let r3 : Transport Aes Mac = record r2 { incoming = rest } in
      rw
        (
          read_lem 32 first (second ++ rest) r first_size (e ∙ append_assoc first second rest),
          decrypt_header_lem crypto law header m r1 (length-header message h) refl,
          frame_size_lem message h,
          read_lem (roundup_16 size + 16) second rest r2 second_size refl,
          decrypt_body_lem crypto law body size m' r3 (length-padded message.body) refl,
          take-padded size message.body refl,
          ap (drop 3) (padded_header message h),
          law.decode_header,
          law.encode_header,
          named,
        )
        refl
