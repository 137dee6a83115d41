-- ===== src/TaskQueue.antt =====
-- trinity/_utils/datastructures.py, `TaskQueue`, and trinity/_utils/queues.py below it.
pub mod Queue
pub mod Counts
pub mod Invariant
pub mod Rounds
pub mod Adding
pub mod Batches
pub mod Settling
pub mod Completing
pub mod System
pub mod Stages
pub mod Validity
pub mod Reachability
mod Tests
