-- ===== src/Source.antt =====
-- src/atolla/source.h and src/atolla/source.cpp: the sending end of a stream of frames.
pub mod State
pub mod Update
pub mod Put
pub mod Hear
pub mod Make
