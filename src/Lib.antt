-- ===== src/Lib.antt =====
-- A model of atolla, a library for streaming colours to strips of lights over UDP, and what holds of it.
--
-- A source borrows a sink (BORROW), is told that it has it (LENT, again every half second), and sends frames
-- for it (ENQUEUE), each with an index modulo 256; a sink that refuses answers FAIL with a code. The sink keeps
-- the frames in a ring and shows them one after another, each for the duration that the borrow asked for.
--
-- The files, by the part of the repository that each models:
--   Mem/Uint16      src/mem/uint16_byte.h, src/mem/uint16le.h
--   Mem/Block       src/mem/block.c; what slices and allocations give is in Mem/Block/Access
--   Mem/Ring        src/mem/ring.c; Mem/Ring/Slots, Blocks and Fifo compare it with a queue of blocks
--   Msg/Kind        src/msg/type.h
--   Msg/Packet      the messages of doc/Atolla Protocol.md, as lists of bytes
--   Msg/Builder     src/msg/builder.c; Msg/Builder/Encode compares it with Msg/Packet
--   Msg/Iter        src/msg/iter.c; Msg/Iter/Decode and Msg/Iter/Fields read Msg/Packet back
--   World           src/time/now.c, and what system calls will give
--   Udp             src/udp_socket: Results, Endpoint, Transfer (sending and receiving) and Sockets (making,
--                   connecting and freeing) on BSD sockets; System is what the calls of a socket do to World;
--                   Wifi is src/udp_socket/udp_socket_wifiudp.cpp
--   Sink            src/atolla/sink.cpp: State (the struct), Valid (its invariant), Pattern (fill_with_pattern
--                   and bounded_diff), Send, Handle (the messages), Run (the calls of a program),
--                   Make (atolla_sink_make, atolla_sink_free); Lender says what a sink promises, without its
--                   bytes and its ring
--   Source          src/atolla/source.cpp: State, Update (source_update and below), Put (sending frames),
--                   Make (atolla_source_make, atolla_source_free); Hear says how a source hears replies,
--                   by its phase
--   Session         a source and a sink that exchange datagrams
--   Colors          HsvToRgb of examples/04-complementary.cpp
--   Examples        the programs of examples: Yellow, Sine and Complementary with their common Loop, and Show,
--                   which is what a round of 01-sink.cpp draws; Runs is about the first three
--   Prelude         numbers, lists, results and integers; Machine: malloc and the byte order
--   Tests           the values and runs that the theorems are applied to
--
-- A function of the source has a definition of the same name; in Udp/Wifi it has wifi_ for udp_ or
-- udp_socket_. A struct is a record with its fields; a function
-- that changes an object through a pointer takes it and returns it. Reads and writes outside of an object,
-- failed assertions and divisions by zero are faults of Result. Numbers are natural numbers with the
-- wrap-around of their type written out; `int` is ℤ where it can be negative. What the code does not define is
-- a parameter: Machine holds `malloc` and the byte order of the processor, World the readings of the clock
-- and the ends of `recvfrom`, `sendto` and `send`, each by the number of the call, and the log of what was
-- sent, with the ends of `socket`, `getaddrinfo`, `bind` and the like in its Kernel, which also has the open
-- descriptors. WifiUdp is the class of the Arduino core. HasMemory says that no `malloc` fails, and
-- IsDatagramService that a datagram is sent whole or not at all.
--
-- Loops run on fuel, and running out is a fault. The loop of sink_handle_enqueue has 129 rounds, one more than
-- the largest difference that enters it; that of atolla_sink_get has 129, one more than the ring has
-- frames; the loops over the messages of a datagram have as many as it has bytes, of which each round
-- takes five or more; fill_with_pattern has one for each byte of its target; and
-- source_await_make_completion, which may wait as long as its clock takes, has its fuel as an argument, as has
-- the loop of 03-sine.cpp that waits for a state; the loops that paint have one for each millisecond.
--
-- Not modelled: the branches for Windows and for IPv4 only; sleeping, which changes only later readings of
-- the clock; clock_gettime for older versions of macOS; what the examples print, work out in floating point
-- (a parameter, by the number of the round) and draw with GLFW; tests and build.
pub mod Prelude
pub mod Machine
pub mod Mem
pub mod Msg
pub mod World
pub mod Udp
pub mod Session
pub mod Sink
pub mod Source
pub mod Colors
pub mod Examples
pub mod Tests
