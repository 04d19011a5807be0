-- ===== src/Gateway.antt =====
-- The gateway: components/udp-gateway.
pub mod Limiter
pub mod Types
pub mod Run
pub mod Handler
pub mod Session
pub mod Lifecycle
mod Tests
mod SessionTests
