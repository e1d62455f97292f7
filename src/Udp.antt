-- ===== src/Udp.antt =====
-- src/udp_socket: sockets over the system calls of a POSIX system with IPv6.
pub mod Results
pub mod Transfer
pub mod Failures
pub mod Endpoint
pub mod System
pub mod Sockets
pub mod Wifi
