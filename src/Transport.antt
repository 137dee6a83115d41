-- ===== src/Transport.antt =====
-- p2p/transport.py, p2p/commands.py and p2p/message.py: the encrypted frames of a connection.
pub mod Crypto
pub mod Frames
pub mod Messages
pub mod Commands
pub mod Slices
pub mod Sealing
pub mod Frame
pub mod RoundTrip
pub mod Forgery
mod Tests
