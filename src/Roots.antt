-- ===== src/Roots.antt =====
-- trinity/_utils/tree_root.py: a forest that is built one edge at a time, in any order.
pub mod Tree
pub mod Object
pub mod Tracker
pub mod Walk
pub mod Invariant
pub mod Lookup
pub mod Growth
pub mod Linking
pub mod Attaching
pub mod Addition
pub mod Pruning
pub mod Uprooting
pub mod Removal
pub mod Removed
pub mod PruneRoot
mod Tests
