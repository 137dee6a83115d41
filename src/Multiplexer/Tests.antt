-- ===== src/Multiplexer/Tests.antt =====
-- A connection with two sub-protocols, and the theorems at concrete inputs.
use trinity.Prelude.{
  ℕ, ◌≤◌, ◌<◌, ◌≡◌, ◌⊎◌, refl, true, some, arith, List, [], ◌∷◌, ◌++◌, length, ℕ_discrete,
}
use trinity.Prelude.Dict
use trinity.Prelude.Exec.{ok, err, exception, unknown_protocol, key_error, for_each}
use trinity.Negotiation.Protocols.{
  Command, Command-discrete, Name-discrete, p2p_protocol_v4, p2p_protocol_v5, eth_protocol_v65,
  les_protocol_v2, witness_protocol,
}
use trinity.Negotiation.Instances.{Protocol, new_protocol, ids_into, types_into}
use trinity.Multiplexer.Queues.{
  Multiplexer, ProtocolType-discrete, new_multiplexer, get_total_msg_count, get_protocol_by_type,
  has_protocol, get_protocol_for_command_type, handle_command, handle_commands, open_stream,
  next_message, raise_if_streaming_error, queue_of,
}
use trinity.Multiplexer.Serving.{Event, received, taken, step, run, calls_of}
use trinity.Multiplexer.Isolation.{Served, run_isolated}
use trinity.Multiplexer.Delivery.{started, start-Has, arrived, number_received, delivered_lem}

program : Unit {0}
unfolding ℕ_discrete Command-discrete Name-discrete ProtocolType-discrete Dict.get Dict.put Dict.has
    new_protocol ids_into types_into new_multiplexer get_total_msg_count get_protocol_by_type
    has_protocol get_protocol_for_command_type handle_command handle_commands for_each open_stream
    next_message raise_if_streaming_error step run started
program = tt

abbrev base : Protocol
base = new_protocol p2p_protocol_v5 0 true

abbrev eth : Protocol
eth = new_protocol eth_protocol_v65 16 true

abbrev wit : Protocol
wit = new_protocol witness_protocol 33 true

-- Queues of two messages: three for eth and one for wit arrive, two of eth are taken.
abbrev calls : List (Event ℕ)
calls =
    received eth (Command.status, 1)
    ∷ received wit (Command.block_witness_hashes, 2)
    ∷ received eth (Command.transactions, 3)
    ∷ received eth (Command.new_block, 4)
    ∷ taken eth_protocol_v65
    ∷ taken eth_protocol_v65
    ∷ []

abbrev connection : Multiplexer ℕ
connection = started base (eth ∷ wit ∷ []) 2

-- The third message for eth is dropped, and the one for wit is not.
eth_gets :
    (run eth_protocol_v65 calls connection).0 ≡ (Command.status, 1) ∷ (Command.transactions, 3) ∷ []
unfolding program
eth_gets = refl

wit_has :
    queue_of witness_protocol (run eth_protocol_v65 calls connection).1
    ≡ some ((Command.block_witness_hashes, 2) ∷ [])
unfolding program
wit_has = refl

lock_taken :
    (open_stream eth_protocol_v65 (open_stream eth_protocol_v65 connection).1).0 ≡ err exception
unfolding program
lock_taken = refl

unknown_protocol_class : (open_stream les_protocol_v2 connection).0 ≡ err unknown_protocol
unfolding program
unknown_protocol_class = refl

-- The other version of the base protocol is found, but has no lock.
other_base_class : (open_stream p2p_protocol_v4 connection).0 ≡ err key_error
unfolding program
other_base_class = refl

for_command : get_protocol_for_command_type Command.block_witness_hashes connection ≡ ok wit
unfolding program
for_command = refl

not_supported : get_protocol_for_command_type Command.announce connection ≡ err unknown_protocol
unfolding program
not_supported = refl

run_isolated_example :
    Served eth_protocol_v65 2
      (calls_of eth_protocol_v65 calls)
      []
      (run eth_protocol_v65 calls connection)
unfolding program
run_isolated_example =
    run_isolated eth_protocol_v65 2 calls [] connection
      (start-Has base (eth ∷ wit ∷ []) 2 eth_protocol_v65 refl)

delivered_example :
    (queue : List (Command × ℕ)) × (queue_of witness_protocol
        (run witness_protocol calls connection).1
      ≡ some queue)
    × (length queue ≤ 2)
    × ((2 < length (arrived (calls_of witness_protocol calls)))
        ⊎ ((run witness_protocol calls connection).0 ++ queue
            ≡ arrived (calls_of witness_protocol calls)))
    × (get_total_msg_count (run witness_protocol calls connection).1 ≡ number_received calls)
unfolding program
delivered_example = delivered_lem base (eth ∷ wit ∷ []) 2 witness_protocol calls (omega arith) refl
