-- ===== src/Sink.antt =====
-- src/atolla/sink.h and src/atolla/sink.cpp: the receiving end of a stream of frames.
pub mod State
pub mod Valid
pub mod Lender
pub mod Pattern
pub mod Send
pub mod Handle
pub mod Run
pub mod Make
