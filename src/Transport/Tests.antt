-- ===== src/Transport/Tests.antt =====
-- Two ends with a cipher that counts and a hash that adds up.
use trinity.Prelude.{
  ℕ, suc, ◌+◌, ◌-◌, ◌^◌, ◌<◌, ◌≤◌, ◌≡◌, ◌⊎◌, refl, ap, true, false, Option, none, some, List, [],
  ◌∷◌, ◌++◌, length, length-replicate, take, replicate, arith,
}
use trinity.Prelude.Bytes.{Bytes}
use trinity.Prelude.Exec.{ok, err, value_error, malformed_message}
use trinity.Transport.Crypto.{Crypto, IsCrypto}
use trinity.Transport.Frames.{Transport, Message, recv}
use trinity.Transport.Messages.{encode, decode}
use trinity.Transport.Commands.{send_commands, receive_commands}
use trinity.Transport.Sealing.{after_header}
use trinity.Transport.Forgery.{recv_forged}
use trinity.Transport.RoundTrip.{payload_of, receive_commands-send_commands, encode_cases}

-- A key stream of ones and twos.
abbrev add_stream : ℕ → Bytes → Bytes × ℕ
add_stream a [] = ([], a)
add_stream a (x ∷ xs) = let rest = add_stream (a + 1) xs in ((x + a) ∷ rest.0, rest.1)

abbrev sub_stream : ℕ → Bytes → Bytes × ℕ
sub_stream a [] = ([], a)
sub_stream a (x ∷ xs) = let rest = sub_stream (a + 1) xs in ((x - a) ∷ rest.0, rest.1)

sub-add : (a : ℕ) (xs : Bytes) → sub_stream a (add_stream a xs).0 ≡ (xs, (add_stream a xs).1)
sub-add a [] = refl
sub-add a (x ∷ xs) = ground (arith, sub-add (a + 1) xs)

length-add_stream : (a : ℕ) (xs : Bytes) → length (add_stream a xs).0 ≡ length xs
length-add_stream a [] = refl
length-add_stream a (x ∷ xs) = ap suc (length-add_stream (a + 1) xs)

abbrev sum : ℕ → Bytes → ℕ
sum m [] = m
sum m (x ∷ xs) = sum (m + x) xs

abbrev one_byte : Bytes → Option ℕ
one_byte [] = none
one_byte (x ∷ xs) = some x

abbrev toy : Crypto ℕ ℕ Bytes
toy = record {
  aes_enc = add_stream;
  aes_dec = sub_stream;
  mac_enc = λ xs. xs;
  mac_update = sum;
  mac_digest = λ m. replicate 32 m;
  encode_int = λ n. n ∷ [];
  decode_int = one_byte;
  encode_header_data = λ xs. xs;
  decode_header_data = λ xs. some (take 3 xs);
  compress = λ xs. xs;
  decompress = λ xs. some xs;
}

toy-IsCrypto : IsCrypto toy
toy-IsCrypto = record {
  dec-enc = sub-add;
  length-enc = length-add_stream;
  length-mac_enc = λ xs h. h;
  length-digest = λ m. length-replicate 32 m;
  length-encode_int = λ n h. refl;
  decode-encode_int = λ n h. refl;
  header_data = 194 ∷ 128 ∷ 128 ∷ [];
  decode_header = refl;
  encode_header = refl;
  decompress-compress = λ xs. refl;
}

abbrev here : Transport ℕ ℕ
here = record {
  aes_enc = 1;
  aes_dec = 500;
  egress_mac = 7;
  ingress_mac = 9;
  incoming = [];
  outgoing = [];
  is_closing = false;
}

abbrev there : Transport ℕ ℕ
there = record {
  aes_enc = 500;
  aes_dec = 1;
  egress_mac = 9;
  ingress_mac = 7;
  incoming = [];
  outgoing = [];
  is_closing = false;
}

abbrev commands : List (ℕ × Bytes)
commands = (16, 192 ∷ []) ∷ (2, []) ∷ (19, 5 ∷ 6 ∷ 7 ∷ []) ∷ []

receive_commands-send_commands_example :
    let sent = send_commands toy true commands here in
    let received =
      receive_commands toy true 3 (record there { incoming = sent.1.outgoing ++ 77 ∷ [] }) in
    (sent.0 ≡ ok tt) × (received.0 ≡ ok commands) × (received.1.incoming ≡ 77 ∷ [])
receive_commands-send_commands_example =
    receive_commands-send_commands toy toy-IsCrypto true commands here there (77 ∷ []) (omega arith)
      refl refl (refl, refl)

encode_cases_example :
    ((length (payload_of toy toy-IsCrypto true (5 ∷ [])) + 1 < 2 ^ 24)
      × (message : Message) × (encode toy 3 true (5 ∷ []) ≡ ok message)
      × (message.command_id ≡ 3)
      × (decode toy message true ≡ ok (5 ∷ [])))
    ⊎ ((2 ^ 24 ≤ length (payload_of toy toy-IsCrypto true (5 ∷ [])) + 1)
        × (encode toy 3 true (5 ∷ []) ≡ err value_error))
encode_cases_example = encode_cases toy toy-IsCrypto 3 true (5 ∷ []) (omega arith)

recv_forged_example :
    recv toy (record there { incoming = (replicate 16 3 ++ replicate 16 4) ++ 77 ∷ [] }) ≡ (
      err malformed_message,
      record there {
        incoming = 77 ∷ [];
        ingress_mac = after_header toy toy-IsCrypto 7 (replicate 16 3);
      },
    )
recv_forged_example =
    recv_forged toy toy-IsCrypto (replicate 16 3) (replicate 16 4) (77 ∷ [])
      (record there { incoming = (replicate 16 3 ++ replicate 16 4) ++ 77 ∷ [] }) refl refl refl
      (λ p. let e = ap (sum 0) p in absurd (omega arith))
