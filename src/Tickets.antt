-- ===== src/Tickets.antt =====
-- The ticket system, ops/ticket_system.py: tickets, their life cycle, deadlines, lists and counts.
pub mod Types
pub mod Desk
pub mod Flow
pub mod Sla
pub mod Reports
pub mod Runs
mod Moves
mod Methods
mod Keys
mod Lifecycle
mod Deadlines
mod Lists
mod Tests
