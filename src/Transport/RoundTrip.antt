-- ===== src/Transport/RoundTrip.antt =====
-- Commands that one end sends, the other end receives in their order.
use trinity.Prelude.{
  ℕ, ◌+◌, ◌^◌, ◌<◌, ◌≤◌, ◌≡◌, ◌∙◌, refl, sym, ap, Bool, true, false, some, List, [], ◌∷◌, ◌++◌,
  length, length-append, take, arith, ltb, if◌then◌else◌, bit_length, bit_length-le,
  bit_length_upper, dec_lt, ◌⊎◌, Bool-cases, inl, inr,
}
use mathlib.Core.List.{append-nil, append_assoc}
use native.Mathlib.Nat.{pow-le-pow_right}
use trinity.Prelude.Bytes.{Bytes, big_endian, to_bytes_fits}
use trinity.Prelude.Exec.{ok, err, value_error}
use trinity.Transport.Crypto.{Crypto, IsCrypto, rlpx_header_data}
use trinity.Transport.Frames.{Transport, Message, new_message}
use trinity.Transport.Messages.{encode, decode}
use trinity.Transport.Commands.{send_command, receive_command, send_commands, receive_commands}
use trinity.Transport.Slices.{take-append, drop-append}
use trinity.Transport.Frame.{InStep, IsFramed, wire_of, next_aes, next_mac, send_lem, recv_lem}

module _ {Aes Mac HeaderData : Type 0} (crypto : Crypto Aes Mac HeaderData)
    (law : IsCrypto crypto) where
  abbrev pub payload_of : Bool → Bytes → Bytes
  payload_of snappy raw = if snappy then crypto.compress raw else raw

  -- The message of a command.
  abbrev pub message_of : ℕ → Bool → Bytes → Message
  message_of cmd_id snappy raw =
      let body = crypto.encode_int cmd_id ++ payload_of snappy raw in
      record {
        header = big_endian 3 (length body) ++ rlpx_header_data;
        body = body;
        command_id = cmd_id;
      }

  -- A number of one byte, and a payload that leaves room for it in a frame.
  abbrev pub Fits : Bool → ℕ → Bytes → Type 0
  Fits snappy cmd_id raw = (cmd_id < 128) × (length (payload_of snappy raw) + 1 < 2 ^ 24)

  length-body :
      (cmd_id : ℕ) (payload : Bytes)
      → cmd_id < 128
      → length (crypto.encode_int cmd_id ++ payload) ≡ length payload + 1
  length-body cmd_id payload h =
      omega
        (arith, length-append (crypto.encode_int cmd_id) payload, law.length-encode_int cmd_id h)

  new_message_lem :
      (header body : Bytes) (n : ℕ)
      → crypto.decode_int (take 1 body) ≡ some n
      → new_message crypto header body
        ≡ ok (record { header = header; body = body; command_id = n })
  unfolding new_message
  new_message_lem header body n h = ground arith

  message_of-IsFramed :
      (cmd_id : ℕ) (snappy : Bool) (raw : Bytes)
      → Fits snappy cmd_id raw
      → IsFramed crypto law (message_of cmd_id snappy raw)
  message_of-IsFramed cmd_id snappy raw h =
      let payload = payload_of snappy raw in
      let body = crypto.encode_int cmd_id ++ payload in
      (
        omega (arith, length-body cmd_id payload h.0, h.1),
        refl,
        new_message_lem (big_endian 3 (length body) ++ rlpx_header_data) body cmd_id (
            ap crypto.decode_int
              (take-append 1 (crypto.encode_int cmd_id) payload (law.length-encode_int cmd_id h.0))
            ∙ law.decode-encode_int cmd_id h.0),
      )

  encode_lem :
      (cmd_id : ℕ) (snappy : Bool) (raw : Bytes)
      → Fits snappy cmd_id raw
      → encode crypto cmd_id snappy raw ≡ ok (message_of cmd_id snappy raw)
  unfolding encode
  encode_lem cmd_id snappy raw h =
      let payload = payload_of snappy raw in
      let size = length (crypto.encode_int cmd_id) + length payload in
      let exact = length-append (crypto.encode_int cmd_id) payload in
      let fits : size < 2 ^ 24 = omega (arith, law.length-encode_int cmd_id h.0, h.1) in
      let narrow : ltb 24 (bit_length size) ≡ false = ground (arith, bit_length-le 24 size) in
      rw (narrow, to_bytes_fits 3 size fits, sym exact, (message_of-IsFramed cmd_id snappy raw h).2)
        refl

  encode_too_large :
      (cmd_id : ℕ) (snappy : Bool) (raw : Bytes)
      → cmd_id < 128
      → 2 ^ 24 ≤ length (payload_of snappy raw) + 1
      → encode crypto cmd_id snappy raw ≡ err value_error
  unfolding encode
  encode_too_large cmd_id snappy raw h large =
      let size = length (crypto.encode_int cmd_id) + length (payload_of snappy raw) in
      let exact = law.length-encode_int cmd_id h in
      let wide : ltb 24 (bit_length size) ≡ true = elim (Bool-cases (ltb 24 (bit_length size))) [
        | inl e ↦ e
        | inr e ↦
            let small : bit_length size ≤ 24 = ground arith in
            let below : 2 ^ bit_length size ≤ 2 ^ 24 = pow-le-pow_right (omega arith) small in
            absurd (omega (arith, bit_length_upper size, below, large))
      ] in
      rw wide refl

  decode_lem :
      (cmd_id : ℕ) (snappy : Bool) (raw : Bytes)
      → cmd_id < 128
      → decode crypto (message_of cmd_id snappy raw) snappy ≡ ok raw
  unfolding decode
  decode_lem cmd_id true raw h =
      rw
        (
          drop-append 1 (crypto.encode_int cmd_id) (crypto.compress raw)
              (law.length-encode_int cmd_id h),
          law.decompress-compress raw,
        )
        refl
  decode_lem cmd_id false raw h =
      rw (drop-append 1 (crypto.encode_int cmd_id) raw (law.length-encode_int cmd_id h)) refl

  -- One end after it sent a command, and the other after it received one.
  abbrev after_send : Transport Aes Mac → Message → Transport Aes Mac
  after_send s message = record s {
    aes_enc = next_aes crypto law s.aes_enc message;
    egress_mac = next_mac crypto law s.aes_enc s.egress_mac message;
    outgoing = s.outgoing ++ wire_of crypto law s.aes_enc s.egress_mac message;
  }

  abbrev after_recv : Transport Aes Mac → Message → Bytes → Transport Aes Mac
  after_recv r message rest = record r {
    aes_dec = next_aes crypto law r.aes_dec message;
    ingress_mac = next_mac crypto law r.aes_dec r.ingress_mac message;
    incoming = rest;
  }

  send_command_lem :
      (cmd_id : ℕ) (snappy : Bool) (raw : Bytes) (s : Transport Aes Mac)
      → Fits snappy cmd_id raw
      → s.is_closing ≡ false
      → send_command crypto cmd_id snappy raw s
        ≡ (ok tt, after_send s (message_of cmd_id snappy raw))
  unfolding send_command
  send_command_lem cmd_id snappy raw s h open_ =
      rw
        (
          encode_lem cmd_id snappy raw h,
          send_lem crypto law (message_of cmd_id snappy raw) s
              (message_of-IsFramed cmd_id snappy raw h) open_,
        )
        refl

  receive_command_lem :
      (cmd_id : ℕ) (snappy : Bool) (raw : Bytes) (r : Transport Aes Mac) (rest : Bytes)
      → Fits snappy cmd_id raw
      → r.incoming
        ≡ wire_of crypto law r.aes_dec r.ingress_mac (message_of cmd_id snappy raw) ++ rest
      → receive_command crypto snappy r
        ≡ (ok (cmd_id, raw), after_recv r (message_of cmd_id snappy raw) rest)
  unfolding receive_command
  receive_command_lem cmd_id snappy raw r rest h e =
      rw
        (
          recv_lem crypto law (message_of cmd_id snappy raw) r rest
              (message_of-IsFramed cmd_id snappy raw h) e,
          decode_lem cmd_id snappy raw h.0,
        )
        refl

  abbrev pub AllFit : Bool → List (ℕ × Bytes) → Type 0
  AllFit snappy [] = Unit
  AllFit snappy ((cmd_id, raw) ∷ commands) = Fits snappy cmd_id raw × AllFit snappy commands

  -- What a sequence of commands adds to the wire, from a place in the key stream and the hash.
  abbrev pub stream_of : Bool → Aes → Mac → List (ℕ × Bytes) → Bytes
  stream_of snappy a m [] = []
  stream_of snappy a m ((cmd_id, raw) ∷ commands) =
      let message = message_of cmd_id snappy raw in
      wire_of crypto law a m message
      ++ stream_of snappy (next_aes crypto law a message) (next_mac crypto law a m message) commands

  sent_stream :
      (snappy : Bool) (commands : List (ℕ × Bytes)) (s : Transport Aes Mac)
      → AllFit snappy commands
      → s.is_closing ≡ false
      → ((send_commands crypto snappy commands s).0 ≡ ok tt)
        × ((send_commands crypto snappy commands s).1.outgoing
            ≡ s.outgoing ++ stream_of snappy s.aes_enc s.egress_mac commands)
  unfolding send_commands
  sent_stream snappy [] s h open_ = (refl, sym (append-nil s.outgoing))
  sent_stream snappy ((cmd_id, raw) ∷ commands) s h open_ =
      let message = message_of cmd_id snappy raw in
      let (all, wire) = sent_stream snappy commands (after_send s message) h.1 open_ in
      rw (send_command_lem cmd_id snappy raw s h.0 open_) (
        all,
        wire
            ∙ append_assoc s.outgoing (wire_of crypto law s.aes_enc s.egress_mac message) (
                stream_of snappy (next_aes crypto law s.aes_enc message)
                  (next_mac crypto law s.aes_enc s.egress_mac message) commands),
      )

  received_stream :
      (snappy : Bool) (commands : List (ℕ × Bytes)) (r : Transport Aes Mac) (rest : Bytes)
      → AllFit snappy commands
      → r.incoming ≡ stream_of snappy r.aes_dec r.ingress_mac commands ++ rest
      → ((receive_commands crypto snappy (length commands) r).0 ≡ ok commands)
        × ((receive_commands crypto snappy (length commands) r).1.incoming ≡ rest)
  unfolding receive_commands
  received_stream snappy [] r rest h e = (refl, e)
  received_stream snappy ((cmd_id, raw) ∷ commands) r rest h e =
      let message = message_of cmd_id snappy raw in
      let wire = wire_of crypto law r.aes_dec r.ingress_mac message in
      let more =
        stream_of snappy (next_aes crypto law r.aes_dec message)
          (next_mac crypto law r.aes_dec r.ingress_mac message) commands in
      let first =
        receive_command_lem cmd_id snappy raw r (more ++ rest) h.0
          (e ∙ append_assoc wire more rest) in
      let (all, left) =
        received_stream snappy commands (after_recv r message (more ++ rest)) rest h.1 refl in
      rw (first, all) (refl, left)

  -- Between two ends that are in step, whatever sequence of commands fits into frames is sent
  -- without an error, and received as the same numbers and payloads in the same order; nothing of
  -- the bytes that follow is read.
  pub receive_commands-send_commands :
      (snappy : Bool) (commands : List (ℕ × Bytes)) (s r : Transport Aes Mac) (rest : Bytes)
      → AllFit snappy commands
      → s.is_closing ≡ false
      → s.outgoing ≡ []
      → InStep crypto law s r
      → (let sent = send_commands crypto snappy commands s in
          let received =
            receive_commands crypto snappy
              (length commands)
              (record r { incoming = sent.1.outgoing ++ rest }) in
          (sent.0 ≡ ok tt) × (received.0 ≡ ok commands) × (received.1.incoming ≡ rest))
  receive_commands-send_commands snappy commands s r rest h open_ start step =
      let (all, wire) = sent_stream snappy commands s h open_ in
      let written : (send_commands crypto snappy commands s).1.outgoing
          ≡ stream_of snappy r.aes_dec r.ingress_mac commands =
        wire
        ∙ ap (λ z. z ++ stream_of snappy s.aes_enc s.egress_mac commands) start
        ∙ ap (λ a. stream_of snappy a s.egress_mac commands) (sym step.0)
        ∙ ap (λ m. stream_of snappy r.aes_dec m commands) (sym step.1) in
      let arrived : Transport Aes Mac = record r {
        incoming = (send_commands crypto snappy commands s).1.outgoing ++ rest;
      } in
      let (got, left) =
        received_stream snappy commands arrived rest h (ap (λ z. z ++ rest) written) in
      (all, got, left)

  -- A command with a number of one byte is encoded where its frame is shorter than 2^24 bytes, and
  -- raises a ValueError otherwise; decoding gives the payload back.
  pub encode_cases :
      (cmd_id : ℕ) (snappy : Bool) (raw : Bytes)
      → cmd_id < 128
      → ((length (payload_of snappy raw) + 1 < 2 ^ 24)
          × (message : Message) × (encode crypto cmd_id snappy raw ≡ ok message)
          × (message.command_id ≡ cmd_id)
          × (decode crypto message snappy ≡ ok raw))
        ⊎ ((2 ^ 24 ≤ length (payload_of snappy raw) + 1)
            × (encode crypto cmd_id snappy raw ≡ err value_error))
  encode_cases cmd_id snappy raw h = elim (dec_lt (length (payload_of snappy raw) + 1) (2 ^ 24)) [
    | yes p ↦ inl (
      p,
      message_of cmd_id snappy raw,
      encode_lem cmd_id snappy raw (h, p),
      refl,
      decode_lem cmd_id snappy raw h,
    )
    | no n ↦
        let large : 2 ^ 24 ≤ length (payload_of snappy raw) + 1 = omega (arith, n) in
        inr (large, encode_too_large cmd_id snappy raw h large)
  ]
