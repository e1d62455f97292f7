-- ===== src/Mem.antt =====
-- src/mem: blocks of memory, the ring of bytes on top of them, and byte order.
pub mod Block
pub mod Ring
pub mod Uint16
