-- ===== src/Relay.antt =====
-- internal/relay: how outbound mail leaves the service.
pub mod Router
pub mod Dns
mod Tests
