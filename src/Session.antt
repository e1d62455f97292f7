-- ===== src/Session.antt =====
-- A source and a sink that exchange datagrams.
pub mod Handshake
pub mod Delivery
pub mod Shown
