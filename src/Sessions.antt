-- ===== src/Sessions.antt =====
-- The session manager, evolution/session_state_manager.py: sessions of tenants with their states,
-- snapshots, chains, audit log and files.
pub mod Types
pub mod Store
pub mod Lifecycle
pub mod Snapshots
pub mod Queries
pub mod Files
pub mod Runs
mod Effects
mod Methods
mod Steps
mod Isolation
mod Invariant
mod Tenants
mod Windows
mod Growth
mod Replay
mod Restore
mod Chains
mod Tests
