-- ===== src/Validator.antt =====
-- The validator of events from outside, evolution/event_input_validator.py.
pub mod Types
pub mod Checks
pub mod Chain
mod Contents
mod Accepted
mod Counts
mod Tests
