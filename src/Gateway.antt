-- ===== src/Gateway.antt =====
-- The isolation gateway, server/gateway/isolation_gateway.py: the rules on addresses, the limits on
-- connections and bytes, the chained audit log, and the handling of one connection.
pub mod Types
pub mod Addresses
pub mod Buckets
pub mod Tracker
pub mod Audit
pub mod Proxy
mod Networks
mod Grants
mod Slots
mod Limits
mod Chain
mod Pump
mod Flow
mod Tests
