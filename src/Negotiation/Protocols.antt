-- ===== src/Negotiation/Protocols.antt =====
-- p2p/protocol.py, p2p/p2p_proto.py and the `proto.py` of eth, les and wit: the protocols with their
-- commands, and the numbers of the commands on a connection.
use trinity.Prelude.{ℕ, Bool, true, false, List, [], ◌∷◌, elem, leb, ◌≡◌, arith}
use trinity.Prelude.Sorting.{TotalOrder}
use trinity.Negotiation.Capabilities.{Capability}

-- The classes of commands.
pub data Command : Type 0 where
  hello disconnect ping pong : Command
  status_v63 status new_block_hashes transactions get_block_headers_v65 : Command
  block_headers_v65 get_block_bodies_v65 block_bodies_v65 new_block : Command
  new_pooled_transaction_hashes get_pooled_transactions_v65 pooled_transactions_v65 : Command
  get_node_data_v65 node_data_v65 get_receipts_v65 receipts_v65 : Command
  status_v1 status_v2 announce block_headers get_block_headers block_bodies : Command
  get_block_bodies receipts get_receipts proofs_v1 get_proofs_v1 proofs_v2 : Command
  get_proofs_v2 contract_codes get_contract_codes : Command
  get_block_witness_hashes block_witness_hashes : Command

unfoldable pub Command-discrete : Discrete Command
Command-discrete = hlevel

unfoldable pub protocol_command_id : Command → ℕ
protocol_command_id Command.hello = 0
protocol_command_id Command.disconnect = 1
protocol_command_id Command.ping = 2
protocol_command_id Command.pong = 3
protocol_command_id Command.status_v63 = 0
protocol_command_id Command.status = 0
protocol_command_id Command.new_block_hashes = 1
protocol_command_id Command.transactions = 2
protocol_command_id Command.get_block_headers_v65 = 3
protocol_command_id Command.block_headers_v65 = 4
protocol_command_id Command.get_block_bodies_v65 = 5
protocol_command_id Command.block_bodies_v65 = 6
protocol_command_id Command.new_block = 7
protocol_command_id Command.new_pooled_transaction_hashes = 8
protocol_command_id Command.get_pooled_transactions_v65 = 9
protocol_command_id Command.pooled_transactions_v65 = 10
protocol_command_id Command.get_node_data_v65 = 13
protocol_command_id Command.node_data_v65 = 14
protocol_command_id Command.get_receipts_v65 = 15
protocol_command_id Command.receipts_v65 = 16
protocol_command_id Command.status_v1 = 0
protocol_command_id Command.status_v2 = 0
protocol_command_id Command.announce = 1
protocol_command_id Command.get_block_headers = 2
protocol_command_id Command.block_headers = 3
protocol_command_id Command.get_block_bodies = 4
protocol_command_id Command.block_bodies = 5
protocol_command_id Command.get_receipts = 6
protocol_command_id Command.receipts = 7
protocol_command_id Command.get_proofs_v1 = 8
protocol_command_id Command.proofs_v1 = 9
protocol_command_id Command.get_contract_codes = 10
protocol_command_id Command.contract_codes = 11
protocol_command_id Command.get_proofs_v2 = 15
protocol_command_id Command.proofs_v2 = 16
protocol_command_id Command.get_block_witness_hashes = 1
protocol_command_id Command.block_witness_hashes = 2

pub data Name : Type 0 where
  p2p eth les wit : Name

unfoldable pub Name-discrete : Discrete Name
Name-discrete = hlevel

-- The order of the names as texts.
abbrev rank : Name → ℕ
rank Name.eth = 0
rank Name.les = 1
rank Name.p2p = 2
rank Name.wit = 3

abbrev before : Name → Name → Bool
before a b = leb (rank a) (rank b)

pub before_total : (a b : Name) → before a b ≡ false → before b a ≡ true
before_total a b h = ground arith

pub before_trans : (a b c : Name) → before a b ≡ true → before b c ≡ true → before a c ≡ true
before_trans a b c h k = ground arith

pub before_antisym : (a b : Name) → before a b ≡ true → before b a ≡ true → a ≡ b
before_antisym a b h k = ground arith

abbrev pub name_order : TotalOrder Name
name_order = record {
  before = before;
  before_total = before_total;
  before_trans = before_trans;
  before_antisym = before_antisym;
}

-- A class of protocols.
pub record ProtocolType : Type 0 where
  pub name : Name
  pub version : ℕ
  pub commands : List Command
  pub command_length : ℕ

abbrev pub p2p_protocol_command_length : ℕ
p2p_protocol_command_length = 16

abbrev pub base_p2p_protocol : ℕ → ProtocolType
base_p2p_protocol version = record {
  name = Name.p2p;
  version = version;
  commands = Command.hello ∷ Command.disconnect ∷ Command.ping ∷ Command.pong ∷ [];
  command_length = p2p_protocol_command_length;
}

abbrev pub p2p_protocol_v4 : ProtocolType
p2p_protocol_v4 = base_p2p_protocol 4

abbrev pub p2p_protocol_v5 : ProtocolType
p2p_protocol_v5 = base_p2p_protocol 5

abbrev pub eth_protocol_v63 : ProtocolType
eth_protocol_v63 = record {
  name = Name.eth;
  version = 63;
  commands =
      Command.status_v63 ∷ Command.new_block_hashes ∷ Command.transactions
      ∷ Command.get_block_headers_v65 ∷ Command.block_headers_v65 ∷ Command.get_block_bodies_v65
      ∷ Command.block_bodies_v65 ∷ Command.new_block ∷ Command.get_node_data_v65
      ∷ Command.node_data_v65 ∷ Command.get_receipts_v65 ∷ Command.receipts_v65 ∷ [];
  command_length = 17;
}

abbrev pub eth_protocol_v64 : ProtocolType
eth_protocol_v64 = record {
  name = Name.eth;
  version = 64;
  commands =
      Command.status ∷ Command.new_block_hashes ∷ Command.transactions
      ∷ Command.get_block_headers_v65 ∷ Command.block_headers_v65 ∷ Command.get_block_bodies_v65
      ∷ Command.block_bodies_v65 ∷ Command.new_block ∷ Command.get_node_data_v65
      ∷ Command.node_data_v65 ∷ Command.get_receipts_v65 ∷ Command.receipts_v65 ∷ [];
  command_length = 17;
}

abbrev pub eth_protocol_v65 : ProtocolType
eth_protocol_v65 = record {
  name = Name.eth;
  version = 65;
  commands =
      Command.status ∷ Command.new_block_hashes ∷ Command.transactions
      ∷ Command.get_block_headers_v65 ∷ Command.block_headers_v65 ∷ Command.get_block_bodies_v65
      ∷ Command.block_bodies_v65 ∷ Command.new_block ∷ Command.new_pooled_transaction_hashes
      ∷ Command.get_pooled_transactions_v65 ∷ Command.pooled_transactions_v65
      ∷ Command.get_node_data_v65 ∷ Command.node_data_v65 ∷ Command.get_receipts_v65
      ∷ Command.receipts_v65 ∷ [];
  command_length = 17;
}

abbrev pub les_protocol_v1 : ProtocolType
les_protocol_v1 = record {
  name = Name.les;
  version = 1;
  commands =
      Command.status_v1 ∷ Command.announce ∷ Command.block_headers ∷ Command.get_block_headers
      ∷ Command.block_bodies ∷ Command.get_block_bodies ∷ Command.receipts ∷ Command.get_receipts
      ∷ Command.proofs_v1 ∷ Command.get_proofs_v1 ∷ Command.contract_codes
      ∷ Command.get_contract_codes ∷ [];
  command_length = 15;
}

abbrev pub les_protocol_v2 : ProtocolType
les_protocol_v2 = record {
  name = Name.les;
  version = 2;
  commands =
      Command.status_v2 ∷ Command.announce ∷ Command.block_headers ∷ Command.get_block_headers
      ∷ Command.block_bodies ∷ Command.get_block_bodies ∷ Command.receipts ∷ Command.get_receipts
      ∷ Command.proofs_v2 ∷ Command.get_proofs_v2 ∷ Command.contract_codes
      ∷ Command.get_contract_codes ∷ [];
  command_length = 21;
}

abbrev pub witness_protocol : ProtocolType
witness_protocol = record {
  name = Name.wit;
  version = 0;
  commands = Command.get_block_witness_hashes ∷ Command.block_witness_hashes ∷ [];
  command_length = 24;
}

abbrev pub as_capability : ProtocolType → Capability Name
as_capability cls = (cls.name, cls.version)

abbrev pub supports_command : ProtocolType → Command → Bool
supports_command cls command_type = elem Command-discrete command_type cls.commands
