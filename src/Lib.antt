-- ===== src/Lib.antt =====
-- Trinity, an Ethereum client: the parts of p2p/ and trinity/ that keep state of their own.
--
-- Kademlia (p2p/kademlia.py, KademliaRoutingTable): the buckets and replacement caches that peer
-- discovery keeps around its own node id. A deque is a list with its left end first, and a node id
-- is the number of its 32 bytes; the record RoutingTable has the fields of the class, and each
-- method is an action on it that returns the state beside a value or an exception. Distance is
-- about the logarithmic distance, Slots about the lists of buckets, Invariant states what the
-- table keeps, and Update, Removal and Queries have a theorem for each method. iter_all_random is
-- not modelled (a random order), nor are Address and Node (keys, sockets and records).
--
-- Roots (trinity/_utils/tree_root.py): the forest of blocks that header and block import build one
-- edge at a time, in any order. Tree has the plain parent and child dictionaries; Object has
-- TreeRoot, whose objects are mutable and shared by the nodes of a branch, and so live on a heap;
-- Tracker has RootTracker with add, get_root and prune. Walk is the specification, a walk up the
-- parents; Invariant ties the root objects to it. Lookup is about get_root; Growth, Linking and
-- Attaching and Addition about add; Pruning (the heap), Uprooting and Removal (the checks on the way), Removed
-- (the tracker afterwards) and PruneRoot about prune. The loop of _get_true_root runs on fuel, one
-- more than the number of nodes: every extension climbs the tree, and a walk is shorter than the
-- number of nodes.
--
-- Preparation (trinity/_utils/datastructures.py, BaseTaskPrerequisites and
-- OrderedTaskPreparation): tasks, such as the import of a block, that wait for their prerequisites
-- and for the task they depend on; header and block sync run on it. It keeps its forest of tasks
-- in a RootTracker. Completion has the prerequisites of one task, Tasks the class. A method that
-- awaits returns none where it would go on waiting: ready_tasks on an empty queue, wait_add_tasks
-- on a full one; the call is made again when the state has changed. The loop of _mark_complete has
-- one round of fuel for every waiting task and one more: every round marks a task that was waiting
-- (Termination). Prerequisites is about set_complete; Consistency and Operations follow what the
-- methods keep, and Reachability has the states that calls in any order lead to.
--
-- TaskQueue (trinity/_utils/datastructures.py, SortableTask and TaskQueue): tasks that consumers take
-- in batches, the most urgent first. Queue has the class; its priority queue is a sorted list of
-- tasks, whose order is a parameter. Where tasks are equally urgent the later one comes first, which a
-- heap does not promise; no theorem depends on it.
-- add and get give back what is left where they go on waiting, and resume_add is the call of add
-- that the lock wakes. Four rounds are fuel enough for the loop of add: one that queues, one that
-- takes the lock, and one that waits or ends. In Queue complete is one step; System has its stages, and
-- what calls that wait or go on have left, so that others run between them: it lets a waiting call of
-- add wake up at any time. In the invariant, held is how often calls of complete that go on have a
-- task. Counts and Invariant say how often a task stands in the queue; Rounds, Adding, Batches,
-- Settling, Completing and Stages are about the methods, Validity and Reachability about System.
--
-- ForkId (trinity/protocol/eth/forkid.py): the fork identifier of EIP-2124 that peers exchange in
-- their handshake. The functions keep no state and return a value or an exception. CRC-32 and
-- int.to_bytes are Python's standard library and are written out in Prelude/Bytes; what the code
-- reads of a virtual machine class is a record of three values. Checksum relates the running
-- checksums of the two functions, Making and Validation have their theorems, Search those of the
-- inner loops, and Agreement what two nodes on one chain make of each other. extract_forkid is not
-- modelled (rlp).
--
-- Headers (trinity/_utils/headers.py and trinity/protocol/common/validators.py): Sequence has
-- sequence_builder, whose range may go below zero before it is cut off, and so is one of signed
-- numbers; a range with the end start + step * n has n entries. Skipping has
-- skip_complete_headers, with the check on a header as a parameter. The two look-ups in the
-- database are not modelled. Response has BaseBlockHeadersValidator, for any type of hash with
-- decidable equality; Order is about sorted numbers, and Answer about what is accepted.
--
-- Negotiation (p2p/handshake.py, p2p/protocol.py, p2p/p2p_proto.py, p2p/multiplexer.py and the
-- proto.py of trinity/protocol/eth, les and wit): how two peers choose their sub-protocols and
-- number the commands. Capabilities has _select_capabilities, where a set is a list without
-- repeated members, in any order; Groups, Newest, Selection and Agreement are about it. Protocols
-- has the classes of protocols and commands with their numbers, Instances the objects of
-- BaseProtocol and get_cmd_offsets, Routing the lookup of stream_transport_messages with its
-- cache; Numbers, Layout and RoundTrip are about these. Handshake has _do_p2p_handshake and
-- negotiate_protocol_handshakes up to the handshakes of the sub-protocols, and Outcome what the
-- two sides of a connection end up with.
--
-- Multiplexer (p2p/multiplexer.py, Multiplexer): the queues in which the messages of a connection wait
-- for the consumers of its protocols. Queues has the class. A stream has two parts, open_stream with
-- the checks and the lock and next_message for one round of the loop, which returns none where the
-- stream ends and raises would_wait where the queue is empty. Serving has sequences of calls and a
-- single queue of limited size, Isolation compares the two, and Delivery is about what gets lost and
-- about the counts. The background task is a value that the methods read.
--
-- Transport (p2p/transport.py, p2p/commands.py and p2p/message.py): the frames of an established
-- connection. Crypto states what is used of the packages for AES, keccak, rlp and snappy, as a
-- record of operations and one of their laws; every theorem takes them as parameters. Frames has
-- Transport with send, recv and the encryption between them: the record holds both ciphers, both
-- hashes and the bytes that come in and go out. Messages has BaseCommand, whose payload stands
-- after its serialization, and Commands sequences of commands. Slices is about byte strings,
-- Sealing about encryption, Frame about one message, RoundTrip about sequences of commands, and
-- Forgery about a wrong authentication code. The key exchange before is not modelled, nor is time.
--
-- Requests (servers.py of trinity/protocol/common and trinity/protocol/eth, with validators.py and
-- normalizers.py of the latter): what a peer answers to a request, and which answers the other one
-- accepts. Server has the handlers of ETHPeerRequestHandler; the database is a parameter, and a
-- lookup returns none where the code's raises HeaderNotFound, MissingTrieNode or KeyError. A handler
-- returns what it would send. The order of a set is not known to the code, and here it is that of
-- the list. Validators has the validators and normalizers, for any functions that compute hashes and
-- trie roots. Accepting is about the validators; Numbers, Available and Answers about headers, checked by the
-- validator of Headers; Stored and Replies are about bodies, receipts and node data.
--
-- Prelude has what they share: lists, Boolean tests, bitwise exclusive or, bytes, signed numbers,
-- Python's dict and sorted, and actions that keep the state beside an exception. The root tracker is stated
-- for any type of node with decidable equality. Tests has, beside each part, runs at concrete
-- inputs.
--
-- Not modelled: the asyncio and trio services, sockets, cryptography, rlp, the databases and the
-- processes of the node around these structures.
pub mod Prelude
pub mod Kademlia
pub mod Multiplexer
pub mod Negotiation
pub mod Requests
pub mod Roots
pub mod ForkId
pub mod Preparation
pub mod TaskQueue
pub mod Transport
pub mod Headers
