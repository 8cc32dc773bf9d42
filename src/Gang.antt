-- ===== src/Gang.antt =====
-- The gang scheduler, evolution/gang_scheduler.py: the placement of instances on NUMA nodes, and
-- the gangs that are allocated, started, completed and evicted as a whole.
pub mod Types
pub mod Topology
pub mod Scheduler
pub mod Runs
mod Nodes
mod Placement
mod Assigned
mod Totals
mod Atomic
mod Starts
mod Running
mod Tests
