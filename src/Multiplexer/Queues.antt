-- ===== src/Multiplexer/Queues.antt =====
-- `Multiplexer`. A class of protocols has a lock and a queue; a background task fills the queues with
-- what the connection receives. The time of the last message is not kept.
use trinity.Prelude.{
  ℕ, ◌+◌, ◌&&◌, Bool, true, false, not, Option, none, some, List, [], ◌∷◌, ◌++◌, length, ltb, leb,
  ℕ_discrete, if◌then◌else◌,
}
use trinity.Prelude.Dict
use trinity.Prelude.Dict.{Dict}
use trinity.Prelude.Exec.{
  Exec, Error, Result, ok, err, key_error, exception, cancelled_error, validation_error,
  unknown_protocol, would_wait, pure, raise, raise_if, gets, require, modify, for_each, ◌>>=◌, ◌>>◌,
}
use trinity.Negotiation.Protocols.{
  Command, Command-discrete, Name, Name-discrete, ProtocolType, supports_command,
}
use trinity.Negotiation.Instances.{Protocol}

unfoldable pub ProtocolType-discrete : Discrete ProtocolType
ProtocolType-discrete = hlevel (ℕ_discrete, Name-discrete, Command-discrete)

-- `_streaming_task`
pub data StreamingTask : Type 0 where
  not_started running cancelled finished : StreamingTask
  failed : Error → StreamingTask

pub record Multiplexer (Payload : Type 0) : Type 0 where
  pub base_protocol : Protocol
  pub protocols : List Protocol
  pub max_queue_size : ℕ
  pub streaming_task : StreamingTask
  pub protocol_locks : Dict ProtocolType Bool
  pub protocol_queues : Dict ProtocolType (List (Command × Payload))
  pub msg_counts : Dict Command ℕ

-- `{type(protocol): value for protocol in protocols}`
abbrev pub for_types : {V : Type 0} → V → Dict ProtocolType V → List Protocol → Dict ProtocolType V
for_types v d [] = d
for_types v d (p ∷ ps) = for_types v (Dict.put ProtocolType-discrete d p.protocol_type v) ps

abbrev pub counted : Option ℕ → ℕ
counted none = 0
counted (some n) = n

abbrev pub sum_values : {K : Type 0} → Dict K ℕ → ℕ
sum_values [] = 0
sum_values (e ∷ d) = e.1 + sum_values d

-- `asyncio.Queue.full`: without a positive size there is no limit.
abbrev pub is_full : {A : Type 0} → ℕ → List A → Bool
is_full max_queue_size queue = ltb 0 max_queue_size && leb max_queue_size (length queue)

abbrev pub is_running : StreamingTask → Bool
is_running StreamingTask.running = true
is_running task = false

-- The protocol classes that are subclasses of BaseP2PProtocol.
abbrev is_base_class : ProtocolType → Bool
is_base_class cls = elim (Name-discrete cls.name Name.p2p) [ yes e ↦ true | no e ↦ false ]

abbrev has_type : ProtocolType → Protocol → Bool
has_type cls p = elim (ProtocolType-discrete p.protocol_type cls) [ yes e ↦ true | no e ↦ false ]

abbrev first_of_type : ProtocolType → List Protocol → Option Protocol
first_of_type cls [] = none
first_of_type cls (p ∷ ps) = if has_type cls p then some p else first_of_type cls ps

abbrev pub supporting : Command → List Protocol → List Protocol
supporting command_type [] = []
supporting command_type (p ∷ ps) =
    if supports_command p.protocol_type command_type
    then p ∷ supporting command_type ps
    else supporting command_type ps

abbrev only_one : {A : Type 0} → List A → Result A
only_one [] = err unknown_protocol
only_one (p ∷ []) = ok p
only_one (p ∷ q ∷ ps) = err validation_error

abbrev found : Option Protocol → Result Protocol
found none = err unknown_protocol
found (some p) = ok p

abbrev is_ok : {A : Type 0} → Result A → Bool
is_ok (ok a) = true
is_ok (err e) = false

-- `get_streaming_error`, raised.
abbrev streaming_error : StreamingTask → Result {0} Unit
streaming_error StreamingTask.not_started = err exception
streaming_error StreamingTask.running = ok tt
streaming_error StreamingTask.cancelled = err cancelled_error
streaming_error StreamingTask.finished = ok tt
streaming_error (StreamingTask.failed e) = err e

abbrev pub Action : Type 0 → Type 0 → Type 0
Action Payload A = Exec (Multiplexer Payload) A

module _ {Payload : Type 0} where
  abbrev pub get_protocols : Multiplexer Payload → List Protocol
  get_protocols m = m.base_protocol ∷ m.protocols

  unfoldable pub new_multiplexer : Protocol → List Protocol → ℕ → Multiplexer Payload
  new_multiplexer base_protocol protocols max_queue_size = record {
    base_protocol = base_protocol;
    protocols = protocols;
    max_queue_size = max_queue_size;
    streaming_task = StreamingTask.not_started;
    protocol_locks = for_types false [] (base_protocol ∷ protocols);
    protocol_queues = for_types [] [] (base_protocol ∷ protocols);
    msg_counts = [];
  }

  unfoldable pub get_total_msg_count : Multiplexer Payload → ℕ
  get_total_msg_count m = sum_values m.msg_counts

  unfoldable pub get_protocol_by_type : ProtocolType → Multiplexer Payload → Result Protocol
  get_protocol_by_type cls m =
      if is_base_class cls then ok m.base_protocol else found (first_of_type cls m.protocols)

  unfoldable pub has_protocol : ProtocolType → Multiplexer Payload → Bool
  unfolding get_protocol_by_type
  has_protocol cls m = is_ok (get_protocol_by_type cls m)

  unfoldable pub get_protocol_for_command_type : Command → Multiplexer Payload → Result Protocol
  get_protocol_for_command_type command_type m =
      only_one (supporting command_type (get_protocols m))

  -- `self._msg_counts[type(cmd)] += 1`
  abbrev pub count_message : Command → Multiplexer Payload → Multiplexer Payload
  count_message c m = record m {
    msg_counts =
        Dict.put Command-discrete m.msg_counts c
          (counted (Dict.get Command-discrete m.msg_counts c) + 1);
  }

  abbrev pub set_queue :
      ProtocolType → List (Command × Payload) → Multiplexer Payload → Multiplexer Payload
  set_queue cls queue m = record m {
    protocol_queues = Dict.put ProtocolType-discrete m.protocol_queues cls queue;
  }

  abbrev pub set_lock : ProtocolType → Bool → Multiplexer Payload → Multiplexer Payload
  set_lock cls locked m = record m {
    protocol_locks = Dict.put ProtocolType-discrete m.protocol_locks cls locked;
  }

  abbrev pub queue_of : ProtocolType → Multiplexer Payload → Option (List (Command × Payload))
  queue_of cls m = Dict.get ProtocolType-discrete m.protocol_queues cls

  -- The body of the loop of `_handle_commands`: `put_nowait`, and a message for which there is no
  -- room is dropped.
  unfoldable pub handle_command : Protocol → Command × Payload → Action Payload Unit
  handle_command protocol cmd = do
    modify (count_message cmd.0)
    known ← gets (queue_of protocol.protocol_type)
    queue ← require key_error known
    limit ← gets (λ m. m.max_queue_size)
    if is_full limit queue
        then pure tt
        else modify (set_queue protocol.protocol_type (queue ++ cmd ∷ []))

  unfoldable pub handle_commands : List (Protocol × (Command × Payload)) → Action Payload Unit
  unfolding handle_command for_each
  handle_commands msgs = for_each (λ e. handle_command e.0 e.1) msgs

  unfoldable pub raise_if_streaming_error : Action Payload Unit
  raise_if_streaming_error m = (streaming_error m.streaming_task, m)

  -- `stream_protocol_messages` up to its loop. The lock is only taken where nothing is raised.
  unfoldable pub open_stream : ProtocolType → Action Payload Unit
  unfolding has_protocol raise_if_streaming_error
  open_stream cls = do
    known ← gets (has_protocol cls)
    raise_if unknown_protocol (not known)
    lock ← gets (λ m. Dict.get ProtocolType-discrete m.protocol_locks cls)
    locked ← require key_error lock
    raise_if exception locked
    raise_if_streaming_error
    modify (set_lock cls true)

  abbrev pub pop_first :
      ProtocolType → List (Command × Payload) → Action Payload (Option (Command × Payload))
  pop_first cls [] = raise would_wait
  pop_first cls (cmd ∷ rest) = do modify (set_queue cls rest); pure (some cmd)

  -- One round of its loop, which ends and frees the lock where the task does not run any more.
  unfoldable pub next_message : ProtocolType → Action Payload (Option (Command × Payload))
  next_message cls = do
    task ← gets (λ m. m.streaming_task)
    known ← gets (queue_of cls)
    queue ← require key_error known
    if is_running task then pop_first cls queue else (modify (set_lock cls false) >> pure none)
