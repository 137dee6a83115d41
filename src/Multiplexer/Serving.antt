-- ===== src/Multiplexer/Serving.antt =====
-- A sequence of calls: what the connection receives and what the consumers of the streams take.
use trinity.Prelude.{
  ℕ, ◌≡◌, ◌≢◌, ◌∙◌, refl, sym, ap, true, false, Option, none, some, List, [], ◌∷◌, ◌++◌, ite,
  if_pos, if_neg, Option-cases, Bool-cases, inl, inr, if◌then◌else◌,
}
use trinity.Prelude.Dict
use trinity.Prelude.Exec.{Result, ok, err, key_error, continue, pure, ◌>>◌}
use trinity.Negotiation.Protocols.{Command, ProtocolType}
use trinity.Negotiation.Instances.{Protocol}
use trinity.Multiplexer.Queues.{
  Multiplexer, StreamingTask, ProtocolType-discrete, Action, is_full, queue_of, handle_command,
  next_message, pop_first, set_queue, count_message,
}

pub data Event (Payload : Type 0) : Type 0 where
  received : Protocol → Command × Payload → Event Payload
  taken : ProtocolType → Event Payload

module _ {Payload : Type 0} where
  unfoldable pub step : Event Payload → Action Payload (Option (Command × Payload))
  unfolding handle_command next_message
  step (received protocol cmd) = handle_command protocol cmd >> pure none
  step (taken cls) = next_message cls

  continue-pure :
      (outcome : Result {0} Unit) (m : Multiplexer Payload)
      → (continue {B = Option (Command × Payload)} outcome (λ u. pure none) m).1 ≡ m
  continue-pure (ok u) m = refl
  continue-pure (err e) m = refl

  pub step-received :
      (protocol : Protocol) (cmd : Command × Payload) (m : Multiplexer Payload)
      → (step (received protocol cmd) m).1 ≡ (handle_command protocol cmd m).1
  unfolding step
  step-received protocol cmd m =
      continue-pure (handle_command protocol cmd m).0 (handle_command protocol cmd m).1

  pub step-taken :
      (cls : ProtocolType) (m : Multiplexer Payload) → step (taken cls) m ≡ next_message cls m
  unfolding step
  step-taken cls m = refl

  -- What a call hands out to the consumer of one class of protocols.
  abbrev pub handed :
      ProtocolType → Event Payload → Result (Option (Command × Payload)) → List (Command × Payload)
  handed cls (received protocol cmd) outcome = []
  handed cls (taken other) (err e) = []
  handed cls (taken other) (ok none) = []
  handed cls (taken other) (ok (some cmd)) = ite (ProtocolType-discrete cls other) (cmd ∷ []) []

  -- All that it gets in a sequence of calls, and the multiplexer after them.
  unfoldable pub run :
      ProtocolType
      → List (Event Payload)
      → Multiplexer Payload
      → List (Command × Payload) × Multiplexer Payload
  unfolding step
  run cls [] m = ([], m)
  run cls (e ∷ es) m =
      let (outcome, after) = step e m in
      let rest = run cls es after in (handed cls e outcome ++ rest.0, rest.1)

  -- One queue of its own, of limited size: `some` is a message that arrives, `none` one that is taken.
  abbrev pub serve :
      ℕ
      → List (Option (Command × Payload))
      → List (Command × Payload)
      → List (Command × Payload) × List (Command × Payload)
  serve limit [] queue = ([], queue)
  serve limit (some cmd ∷ calls) queue =
      serve limit calls (if is_full limit queue then queue else queue ++ cmd ∷ [])
  serve limit (none ∷ calls) [] = serve limit calls []
  serve limit (none ∷ calls) (cmd ∷ queue) =
      let rest = serve limit calls queue in (cmd ∷ rest.0, rest.1)

  -- The calls that are about one class.
  abbrev pub calls_of : ProtocolType → List (Event Payload) → List (Option (Command × Payload))
  calls_of cls [] = []
  calls_of cls (received protocol cmd ∷ es) =
      ite (ProtocolType-discrete cls protocol.protocol_type) (some cmd ∷ calls_of cls es)
        (calls_of cls es)
  calls_of cls (taken other ∷ es) =
      ite (ProtocolType-discrete cls other) (none ∷ calls_of cls es) (calls_of cls es)

  -- What a class has: a running task, this limit and this queue.
  pub record Has (cls : ProtocolType) (queue : List (Command × Payload)) (limit : ℕ)
      (m : Multiplexer Payload) : Type 0 where
    pub runs : m.streaming_task ≡ StreamingTask.running
    pub limited : m.max_queue_size ≡ limit
    pub queued : queue_of cls m ≡ some queue

  set_queue_other :
      (cls other : ProtocolType) (queue new_queue : List (Command × Payload)) (limit : ℕ)
      (m : Multiplexer Payload)
      → cls ≢ other
      → Has cls queue limit m
      → Has cls queue limit (set_queue other new_queue m)
  set_queue_other cls other queue new_queue limit m ne h = record {
    runs = h.runs;
    limited = h.limited;
    queued =
        Dict.get-put_ne ProtocolType-discrete m.protocol_queues other cls new_queue ne ∙ h.queued;
  }

  set_queue_own :
      (cls other : ProtocolType) (queue new_queue : List (Command × Payload)) (limit : ℕ)
      (m : Multiplexer Payload)
      → cls ≡ other
      → Has cls queue limit m
      → Has cls new_queue limit (set_queue other new_queue m)
  set_queue_own cls other queue new_queue limit m e h = record {
    runs = h.runs;
    limited = h.limited;
    queued = Dict.get-put_self ProtocolType-discrete m.protocol_queues other cls new_queue e;
  }

  pub handle_other :
      (cls : ProtocolType) (queue : List (Command × Payload)) (limit : ℕ) (protocol : Protocol)
      (cmd : Command × Payload) (m : Multiplexer Payload)
      → cls ≢ protocol.protocol_type
      → Has cls queue limit m
      → Has cls queue limit (handle_command protocol cmd m).1
  unfolding handle_command
  handle_other cls queue limit protocol cmd m ne h =
      let counted : Has cls queue limit (count_message cmd.0 m) = record {
        runs = h.runs;
        limited = h.limited;
        queued = h.queued;
      } in
      elim (Option-cases (queue_of protocol.protocol_type m)) [
        | inl e ↦ rw e counted
        | inr (q, e) ↦ elim (Bool-cases (is_full m.max_queue_size q)) [
          | inl full ↦ rw (e, full) counted
          | inr room ↦
              rw (e, room)
                (set_queue_other cls protocol.protocol_type queue (q ++ cmd ∷ []) limit
                  (count_message cmd.0 m) ne counted)
        ]
      ]

  pub handle_own :
      (cls : ProtocolType) (queue : List (Command × Payload)) (limit : ℕ) (protocol : Protocol)
      (cmd : Command × Payload) (m : Multiplexer Payload)
      → cls ≡ protocol.protocol_type
      → Has cls queue limit m
      → Has cls
          (if is_full limit queue then queue else queue ++ cmd ∷ [])
          limit
          (handle_command protocol cmd m).1
  unfolding handle_command
  handle_own cls queue limit protocol cmd m same h =
      let counted : Has cls queue limit (count_message cmd.0 m) = record {
        runs = h.runs;
        limited = h.limited;
        queued = h.queued;
      } in
      let e : queue_of protocol.protocol_type m ≡ some queue =
        ap (λ c. queue_of c m) (sym same) ∙ h.queued in
      elim (Bool-cases (is_full limit queue)) [
        | inl full ↦
            let at : is_full m.max_queue_size queue ≡ true =
              ap (λ l. is_full l queue) h.limited ∙ full in
            rw (e, at, full) counted
        | inr room ↦
            let at : is_full m.max_queue_size queue ≡ false =
              ap (λ l. is_full l queue) h.limited ∙ room in
            rw (e, at, room)
              (set_queue_own cls protocol.protocol_type queue (queue ++ cmd ∷ []) limit
                (count_message cmd.0 m) same counted)
      ]

  abbrev pub first_message : List (Command × Payload) → List (Command × Payload)
  first_message [] = []
  first_message (cmd ∷ rest) = cmd ∷ []

  abbrev pub rest_of : List (Command × Payload) → List (Command × Payload)
  rest_of [] = []
  rest_of (cmd ∷ rest) = rest

  next_message_lem :
      (cls : ProtocolType) (queue : List (Command × Payload)) (m : Multiplexer Payload)
      → m.streaming_task ≡ StreamingTask.running
      → queue_of cls m ≡ some queue
      → next_message cls m ≡ pop_first cls queue m
  unfolding next_message
  next_message_lem cls queue m r e = rw (r, e) refl

  next_message_missing :
      (cls : ProtocolType) (m : Multiplexer Payload)
      → queue_of cls m ≡ none
      → next_message cls m ≡ (err key_error, m)
  unfolding next_message
  next_message_missing cls m e = rw e refl

  pub take_own :
      (cls other : ProtocolType) (queue : List (Command × Payload)) (limit : ℕ)
      (m : Multiplexer Payload)
      → cls ≡ other
      → Has cls queue limit m
      → (handed cls (taken other) (next_message other m).0 ≡ first_message queue)
        × Has cls (rest_of queue) limit (next_message other m).1
  take_own cls other [] limit m same h =
      let e = ap (λ c. queue_of c m) (sym same) ∙ h.queued in
      rw (next_message_lem other [] m h.runs e) (refl, h)
  take_own cls other (cmd ∷ queue) limit m same h =
      let e = ap (λ c. queue_of c m) (sym same) ∙ h.queued in
      rw (next_message_lem other (cmd ∷ queue) m h.runs e) (
        if_pos (ProtocolType-discrete cls other) same (cmd ∷ []) [],
        set_queue_own cls other (cmd ∷ queue) queue limit m same h,
      )

  pub take_other :
      (cls other : ProtocolType) (queue : List (Command × Payload)) (limit : ℕ)
      (m : Multiplexer Payload)
      → cls ≢ other
      → Has cls queue limit m
      → (handed cls (taken other) (next_message other m).0 ≡ [])
        × Has cls queue limit (next_message other m).1
  take_other cls other queue limit m ne h = elim (Option-cases (queue_of other m)) [
    | inl e ↦ rw (next_message_missing other m e) (refl, h)
    | inr ([], e) ↦ rw (next_message_lem other [] m h.runs e) (refl, h)
    | inr (cmd ∷ q, e) ↦ rw (next_message_lem other (cmd ∷ q) m h.runs e) (
      if_neg (ProtocolType-discrete cls other) ne (cmd ∷ []) [],
      set_queue_other cls other queue q limit m ne h,
    )
  ]
