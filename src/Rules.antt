-- ===== src/Rules.antt =====
-- The rules of defence, evolution/defense_rule_persistence.py: versions of rules, their circuit
-- breakers, the way back to an earlier version, and the file.
pub mod Types
pub mod Places
pub mod Saving
pub mod Versions
pub mod Circuit
mod Active
mod Breaking
mod Recovery
mod Aftermath
mod Upkeep
mod Reloading
mod Rerunning
mod Invariant
mod Upholding
mod States
mod Tests
