-- ===== src/Breaker.antt =====
-- The security circuit breaker, evolution/security_circuit_breaker.py: events, trigger rules,
-- actions in four levels, manual and automatic recovery.
pub mod Types
pub mod Rules
pub mod Engine
pub mod Recovery
pub mod Queries
pub mod Runs
mod Sweeps
mod Firing
mod Counts
mod Invariant
mod Tests
