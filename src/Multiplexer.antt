-- ===== src/Multiplexer.antt =====
-- p2p/multiplexer.py, class Multiplexer: the queues of the protocols of a connection.
pub mod Queues
pub mod Serving
pub mod Isolation
pub mod Delivery
mod Tests
