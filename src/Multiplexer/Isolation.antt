-- ===== src/Multiplexer/Isolation.antt =====
-- Every protocol has what a queue of its own would have.
use trinity.Prelude.{
  ℕ, ◌≡◌, ◌≢◌, refl, ap, Option, none, some, List, [], ◌∷◌, ◌++◌, if_pos, if_neg, if◌then◌else◌,
}
use trinity.Negotiation.Protocols.{Command, ProtocolType}
use trinity.Negotiation.Instances.{Protocol}
use trinity.Multiplexer.Queues.{
  Multiplexer, ProtocolType-discrete, is_full, handle_command, next_message,
}
use trinity.Multiplexer.Serving.{
  Event, received, taken, handed, run, serve, calls_of, Has, handle_other, handle_own,
  step-received, step-taken, take_other, take_own, first_message, rest_of,
}

module _ {Payload : Type 0} (cls : ProtocolType) (limit : ℕ) where
  -- What a class got and has left, as a queue of its own would.
  abbrev pub Served :
      List (Option (Command × Payload))
      → List (Command × Payload)
      → List (Command × Payload) × Multiplexer Payload
      → Type 0
  Served calls queue after =
      (after.0 ≡ (serve limit calls queue).0) × Has cls (serve limit calls queue).1 limit after.1

  Served-taken :
      (calls : List (Option (Command × Payload))) (queue got : List (Command × Payload))
      (after : List (Command × Payload) × Multiplexer Payload)
      → got ≡ first_message queue
      → Served calls (rest_of queue) after
      → Served (none ∷ calls) queue (got ++ after.0, after.1)
  Served-taken calls [] got after e s = rw e s
  Served-taken calls (cmd ∷ queue) got after e s = rw e (ap (◌∷◌ cmd) s.0, s.1)

  received_own :
      (protocol : Protocol) (cmd : Command × Payload) (es : List (Event Payload))
      → cls ≡ protocol.protocol_type
      → calls_of cls (received protocol cmd ∷ es) ≡ some cmd ∷ calls_of cls es
  received_own protocol cmd es e =
      if_pos (ProtocolType-discrete cls protocol.protocol_type) e (some cmd ∷ calls_of cls es)
        (calls_of cls es)

  received_other :
      (protocol : Protocol) (cmd : Command × Payload) (es : List (Event Payload))
      → cls ≢ protocol.protocol_type
      → calls_of cls (received protocol cmd ∷ es) ≡ calls_of cls es
  received_other protocol cmd es ne =
      if_neg (ProtocolType-discrete cls protocol.protocol_type) ne (some cmd ∷ calls_of cls es)
        (calls_of cls es)

  taken_own :
      (other : ProtocolType) (es : List (Event Payload))
      → cls ≡ other
      → calls_of cls (taken other ∷ es) ≡ none ∷ calls_of cls es
  taken_own other es e =
      if_pos (ProtocolType-discrete cls other) e (none ∷ calls_of cls es) (calls_of cls es)

  taken_other :
      (other : ProtocolType) (es : List (Event Payload))
      → cls ≢ other
      → calls_of cls (taken other ∷ es) ≡ calls_of cls es
  taken_other other es ne =
      if_neg (ProtocolType-discrete cls other) ne (none ∷ calls_of cls es) (calls_of cls es)

  -- Whatever is received and taken for the protocols of a connection, the consumer of one gets, and
  -- has left, what it would from a queue of its own and of the same size that only the calls for this
  -- protocol reach.
  pub run_isolated :
      (es : List (Event Payload)) (queue : List (Command × Payload)) (m : Multiplexer Payload)
      → Has cls queue limit m
      → Served (calls_of cls es) queue (run cls es m)
  unfolding run
  run_isolated [] queue m h = (refl, h)
  run_isolated (received protocol cmd ∷ es) queue m h =
      let after = (handle_command protocol cmd m).1 in
      rw (step-received protocol cmd m) (elim (ProtocolType-discrete cls protocol.protocol_type) [
        | yes e ↦ rw (received_own protocol cmd es e) (
            run_isolated es (if is_full limit queue then queue else queue ++ cmd ∷ []) after
              (handle_own cls queue limit protocol cmd m e h))
        | no ne ↦
            rw (received_other protocol cmd es ne)
              (run_isolated es queue after (handle_other cls queue limit protocol cmd m ne h))
      ])
  run_isolated (taken other ∷ es) queue m h =
      let after = (next_message other m).1 in
      rw (step-taken other m) (elim (ProtocolType-discrete cls other) [
        | yes e ↦
            let (got, has) = take_own cls other queue limit m e h in
            rw (taken_own other es e) (
              Served-taken (calls_of cls es) queue
                (handed cls (taken other) (next_message other m).0) (run cls es after) got
                (run_isolated es (rest_of queue) after has))
        | no ne ↦
            let (got, has) = take_other cls other queue limit m ne h in
            rw (taken_other other es ne, got) (run_isolated es queue after has)
      ])
