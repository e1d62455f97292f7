-- ===== src/Msg.antt =====
-- src/msg: the messages of the protocol, their assembly and their interpretation.
pub mod Kind
pub mod Packet
pub mod Builder
pub mod Iter
