-- ===== src/Multiplexer/Delivery.antt =====
-- What reaches the consumer of a protocol, and the counts of the messages.
use trinity.Prelude.{
  ℕ, suc, ◌+◌, ◌≤◌, ◌<◌, ◌≡◌, ◌∙◌, refl, sym, ap, subst, true, false, Option, none, some, List, [],
  ◌∷◌, ◌++◌, length, elem, arith, ◌⊎◌, Option-cases, Bool-cases, inl, inr, dec_lt, if◌then◌else◌,
}
use trinity.Prelude.Dict
use trinity.Prelude.Dict.{Dict}
use trinity.Negotiation.Protocols.{Command, Command-discrete, ProtocolType}
use trinity.Negotiation.Instances.{Protocol}
use trinity.Multiplexer.Queues.{
  Multiplexer, StreamingTask, ProtocolType-discrete, for_types, counted, sum_values, is_full,
  is_running, queue_of, new_multiplexer, get_total_msg_count, handle_command, next_message,
}
use trinity.Multiplexer.Serving.{
  Event, received, taken, step-received, step-taken, run, serve, calls_of, Has,
}
use trinity.Multiplexer.Isolation.{run_isolated}

abbrev pub types_of : List Protocol → List ProtocolType
types_of [] = []
types_of (p ∷ ps) = p.protocol_type ∷ types_of ps

module _ {V : Type 0} (v : V) (cls : ProtocolType) where
  for_types_kept :
      (d : Dict ProtocolType V) (ps : List Protocol)
      → Dict.get ProtocolType-discrete d cls ≡ some v
      → Dict.get ProtocolType-discrete (for_types v d ps) cls ≡ some v
  for_types_kept d [] h = h
  for_types_kept d (p ∷ ps) h =
      for_types_kept (Dict.put ProtocolType-discrete d p.protocol_type v) ps
        (ground (arith, Dict.get-put ProtocolType-discrete d p.protocol_type cls v))

  for_types_lem :
      (d : Dict ProtocolType V) (ps : List Protocol)
      → elem ProtocolType-discrete cls (types_of ps) ≡ true
      → Dict.get ProtocolType-discrete (for_types v d ps) cls ≡ some v
  for_types_lem d [] h = absurd (ground arith)
  for_types_lem d (p ∷ ps) h = elim (ProtocolType-discrete cls p.protocol_type) [
    | yes e ↦
        for_types_kept (Dict.put ProtocolType-discrete d p.protocol_type v) ps
          (Dict.get-put_self ProtocolType-discrete d p.protocol_type cls v e)
    | no ne ↦ for_types_lem (Dict.put ProtocolType-discrete d p.protocol_type v) ps (ground arith)
  ]

module _ {K : Type 0} (dec : Discrete K) where
  sum_values-put :
      (d : Dict K ℕ) (k : K)
      → sum_values (Dict.put dec d k (counted (Dict.get dec d k) + 1)) ≡ sum_values d + 1
  unfolding Dict.put Dict.get
  sum_values-put [] k = omega arith
  sum_values-put (e ∷ d) k = ground (arith, sum_values-put d k)

module _ {A : Type 0} where
  append_end : (xs ys : List A) (x : A) → (xs ++ x ∷ []) ++ ys ≡ xs ++ x ∷ ys
  append_end [] ys x = refl
  append_end (z ∷ xs) ys x = ap (◌∷◌ z) (append_end xs ys x)

  append_nil : (xs : List A) → xs ++ [] ≡ xs
  append_nil [] = refl
  append_nil (z ∷ xs) = ap (◌∷◌ z) (append_nil xs)

  length-append_end : (xs : List A) (x : A) → length (xs ++ x ∷ []) ≡ length xs + 1
  length-append_end [] x = omega arith
  length-append_end (z ∷ xs) x = omega (arith, length-append_end xs x)

  abbrev pub arrived : List (Option A) → List A
  arrived [] = []
  arrived (some a ∷ calls) = a ∷ arrived calls
  arrived (none ∷ calls) = arrived calls

module _ {Payload : Type 0} where
  serve_room :
      (limit : ℕ) (calls : List (Option (Command × Payload))) (queue : List (Command × Payload))
      (cmd : Command × Payload)
      → is_full limit queue ≡ false
      → serve limit (some cmd ∷ calls) queue ≡ serve limit calls (queue ++ cmd ∷ [])
  serve_room limit calls queue cmd room =
      ap (λ full. serve limit calls (if full then queue else queue ++ cmd ∷ [])) room

  serve_full :
      (limit : ℕ) (calls : List (Option (Command × Payload))) (queue : List (Command × Payload))
      (cmd : Command × Payload)
      → is_full limit queue ≡ true
      → serve limit (some cmd ∷ calls) queue ≡ serve limit calls queue
  serve_full limit calls queue cmd full =
      ap (λ b. serve limit calls (if b then queue else queue ++ cmd ∷ [])) full

  serve_all :
      (limit : ℕ) (calls : List (Option (Command × Payload))) (queue : List (Command × Payload))
      → length queue + length (arrived calls) ≤ limit
      → (serve limit calls queue).0 ++ (serve limit calls queue).1 ≡ queue ++ arrived calls
  serve_all limit [] queue h = sym (append_nil queue)
  serve_all limit (some cmd ∷ calls) queue h =
      let room : is_full limit queue ≡ false = ground arith in
      ap (λ after. after.0 ++ after.1) (serve_room limit calls queue cmd room)
      ∙ serve_all limit calls (queue ++ cmd ∷ []) (omega (arith, length-append_end queue cmd))
      ∙ append_end queue (arrived calls) cmd
  serve_all limit (none ∷ calls) [] h = serve_all limit calls [] h
  serve_all limit (none ∷ calls) (cmd ∷ queue) h =
      ap (◌∷◌ cmd) (serve_all limit calls queue (omega arith))

  serve_le :
      (limit : ℕ) (calls : List (Option (Command × Payload))) (queue : List (Command × Payload))
      → 0 < limit
      → length queue ≤ limit
      → length (serve limit calls queue).1 ≤ limit
  serve_le limit [] queue p h = h
  serve_le limit (some cmd ∷ calls) queue p h = elim (Bool-cases (is_full limit queue)) [
    | inl full ↦
        subst (λ after. length after.1 ≤ limit) (sym (serve_full limit calls queue cmd full))
          (serve_le limit calls queue p h)
    | inr room ↦
        let short : suc (length queue) ≤ limit = ground arith in
        subst (λ after. length after.1 ≤ limit) (sym (serve_room limit calls queue cmd room))
          (serve_le limit calls (queue ++ cmd ∷ []) p (omega (arith, length-append_end queue cmd)))
  ]
  serve_le limit (none ∷ calls) [] p h = serve_le limit calls [] p h
  serve_le limit (none ∷ calls) (cmd ∷ queue) p h = serve_le limit calls queue p (omega arith)

  abbrev pub number_received : List (Event Payload) → ℕ
  number_received [] = 0
  number_received (received protocol cmd ∷ es) = suc (number_received es)
  number_received (taken cls ∷ es) = number_received es

  total-handle_command :
      (protocol : Protocol) (cmd : Command × Payload) (m : Multiplexer Payload)
      → get_total_msg_count (handle_command protocol cmd m).1 ≡ get_total_msg_count m + 1
  unfolding get_total_msg_count handle_command
  total-handle_command protocol cmd m =
      let once = sum_values-put Command-discrete m.msg_counts cmd.0 in
      elim (Option-cases (queue_of protocol.protocol_type m)) [
        | inl e ↦ rw e once
        | inr (q, e) ↦ elim (Bool-cases (is_full m.max_queue_size q)) [
          | inl full ↦ rw (e, full) once
          | inr room ↦ rw (e, room) once
        ]
      ]

  total-next_message :
      (cls : ProtocolType) (m : Multiplexer Payload)
      → get_total_msg_count (next_message cls m).1 ≡ get_total_msg_count m
  unfolding get_total_msg_count next_message
  total-next_message cls m = elim (Option-cases (queue_of cls m)) [
    | inl e ↦ rw e refl
    | inr ([], e) ↦ elim (Bool-cases (is_running m.streaming_task)) [
      | inl r ↦ rw (e, r) refl
      | inr r ↦ rw (e, r) refl
    ]
    | inr (cmd ∷ q, e) ↦ elim (Bool-cases (is_running m.streaming_task)) [
      | inl r ↦ rw (e, r) refl
      | inr r ↦ rw (e, r) refl
    ]
  ]

  total-run :
      (cls : ProtocolType) (es : List (Event Payload)) (m : Multiplexer Payload)
      → get_total_msg_count (run cls es m).1 ≡ get_total_msg_count m + number_received es
  unfolding run
  total-run cls [] m = omega arith
  total-run cls (received protocol cmd ∷ es) m = rw (step-received protocol cmd m) (
      omega (
        arith,
        total-handle_command protocol cmd m,
        total-run cls es (handle_command protocol cmd m).1,
      ))
  total-run cls (taken other ∷ es) m =
      rw (step-taken other m)
        (omega (arith, total-next_message other m, total-run cls es (next_message other m).1))

  -- A multiplexer whose task has been started.
  unfoldable pub started : Protocol → List Protocol → ℕ → Multiplexer Payload
  unfolding new_multiplexer
  started base_protocol protocols max_queue_size =
      record (new_multiplexer base_protocol protocols max_queue_size) {
        streaming_task = StreamingTask.running;
      }

  total-nil : (m : Multiplexer Payload) → m.msg_counts ≡ [] → get_total_msg_count m ≡ 0
  unfolding get_total_msg_count
  total-nil m e = rw e refl

  pub start-Has :
      (base_protocol : Protocol) (protocols : List Protocol) (limit : ℕ) (cls : ProtocolType)
      → elem ProtocolType-discrete cls (types_of (base_protocol ∷ protocols)) ≡ true
      → Has cls [] limit (started base_protocol protocols limit)
  unfolding started
  start-Has base_protocol protocols limit cls h = record {
    runs = refl;
    limited = refl;
    queued = for_types_lem [] cls [] (base_protocol ∷ protocols) h;
  }

  -- After any calls on a new multiplexer with a limit, the queue of a protocol of the connection is
  -- within it, and the messages handed out and those in the queue are all that arrived for the
  -- protocol, in order, or more arrived than the limit. All messages that arrived are counted.
  pub delivered_lem :
      (base_protocol : Protocol) (protocols : List Protocol) (limit : ℕ) (cls : ProtocolType)
      (es : List (Event Payload))
      → 0 < limit
      → elem ProtocolType-discrete cls (types_of (base_protocol ∷ protocols)) ≡ true
      → (queue : List (Command × Payload)) × (queue_of cls
            (run cls es (started base_protocol protocols limit)).1
          ≡ some queue)
        × (length queue ≤ limit)
        × ((limit < length (arrived (calls_of cls es)))
            ⊎ ((run cls es (started base_protocol protocols limit)).0 ++ queue
                ≡ arrived (calls_of cls es)))
        × (get_total_msg_count (run cls es (started base_protocol protocols limit)).1
            ≡ number_received es)
  unfolding started
  delivered_lem base_protocol protocols limit cls es positive h =
      let calls = calls_of cls es in
      let (got, has) =
        run_isolated cls limit es [] (started base_protocol protocols limit)
          (start-Has base_protocol protocols limit cls h) in
      (
        (serve limit calls []).1,
        has.queued,
        serve_le limit calls [] positive (omega arith),
        elim (dec_lt limit (length (arrived calls))) [
          | yes more ↦ inl more
          | no few ↦
              inr (
                ap (λ g. g ++ (serve limit calls []).1) got
                ∙ serve_all limit calls [] (omega arith))
        ],
        omega (
          arith,
          total-run cls es (started base_protocol protocols limit),
          total-nil (started base_protocol protocols limit) refl,
        ),
      )
