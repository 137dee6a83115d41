-- ===== src/Negotiation.antt =====
-- p2p/protocol.py, p2p/handshake.py and p2p/multiplexer.py: how two peers agree on their
-- sub-protocols and number their commands.
pub mod Capabilities
pub mod Protocols
pub mod Instances
pub mod Numbers
pub mod Routing
pub mod Layout
pub mod RoundTrip
pub mod Handshake
pub mod Outcome
mod Tests
pub mod Groups
pub mod Newest
pub mod Selection
pub mod Agreement
