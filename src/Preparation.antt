-- ===== src/Preparation.antt =====
-- trinity/_utils/datastructures.py, `BaseTaskPrerequisites` and `OrderedTaskPreparation`: tasks become
-- ready when their prerequisites are finished and the task they depend on is ready.
pub mod Completion
pub mod Tasks
pub mod Consistency
pub mod Prerequisites
pub mod Operations
pub mod Reachability
pub mod Termination
mod Tests
