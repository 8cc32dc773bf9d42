-- ===== src/Playbooks.antt =====
-- The playbook engine, ops/playbook_engine.py: events trigger playbooks, whose actions are executed
-- in order, with approvals by a person and a reaction to failures.
pub mod Types
pub mod Matching
pub mod Execution
pub mod Handlers
pub mod Engine
pub mod Loading
mod Outcomes
mod Loop
mod Results
mod Completion
mod Approvals
mod Defaults
pub mod Runs
mod Waiting
mod Tests
