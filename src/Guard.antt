-- ===== src/Guard.antt =====
-- The policy guard, evolution/policy_guard.py: the check of a tool call against rules and against
-- injected prompts, and the queue of approvals.
pub mod Types
pub mod Detector
pub mod Checks
pub mod Approvals
mod Denials
mod Counts
mod Decisions
mod Tests
