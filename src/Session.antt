-- ===== src/Session.antt =====
-- owalkie-core/src/session.cpp: one relay session.
pub mod State
pub mod Events
pub mod Outbound
pub mod Transmit
pub mod Worker
pub mod Keepalive
pub mod Inbound
pub mod Lifecycle
pub mod Control
pub mod Invariant
pub mod Samples
mod Examples
