-- ===== src/Headers.antt =====
-- trinity/_utils/headers.py and trinity/protocol/common/validators.py: sequences of block numbers, and
-- the headers that answer a request for one.
pub mod Sequence
pub mod Skipping
pub mod Response
pub mod Order
pub mod Answer
mod Tests
