-- ===== src/World.antt =====
-- What the program meets of its surroundings, as results that its calls will have: readings of the clock,
-- datagrams and results of system calls, each by the number of the call. A run reads them in order; what it
-- sends is logged. And src/time/now.c, which reads the clock.
use Prim.Native.String.{String}
use atolla.Prelude.{Bool, ℕ, ◌+◌, ◌*◌, ◌/◌, ◌≡◌, Option, List, u32}

-- The values of `errno` that the code tells apart.
pub data Errno : Type 0 where
  eagain : Errno
  ewouldblock : Errno
  eacces : Errno
  edestaddrreq : Errno
  emsgsize : Errno
  other_errno : Errno

-- What `clock_gettime` fills in.
pub record Timespec : Type 0 where
  pub tv_sec : ℕ
  pub tv_nsec : ℕ

-- struct UdpEndpoint: the bytes of the `sockaddr_storage`, and how many of them are the address
pub record UdpEndpoint : Type 0 where
  pub addr : List ℕ
  pub addr_len : ℕ

-- The end of a call of `recvfrom`.
pub data Incoming : Type 0 where
  datagram : UdpEndpoint → List ℕ → Incoming
  recv_failed : Errno → Incoming

-- The end of a call of `sendto` or `send`: the bytes sent, or -1 with an `errno`.
pub data SysResult : Type 0 where
  done : ℕ → SysResult
  failed : Errno → SysResult

-- A datagram handed to the system; `none` is the receiver that the socket is connected to.
pub record Packet : Type 0 where
  pub to : Option UdpEndpoint
  pub bytes : List ℕ

-- An entry of the list that `getaddrinfo` makes.
pub record AddrInfo : Type 0 where
  pub ai_addr : UdpEndpoint
  pub is_datagram : Bool
  pub is_udp : Bool

-- The end of a call of `getaddrinfo`.
pub data Resolution : Type 0 where
  resolved : List AddrInfo → Resolution
  system_error : Errno → Resolution
  unresolved : ℕ → Resolution

-- What the program asks of the system about a descriptor, -1 being none.
pub data SocketCall : Type 0 where
  dual_stack : Option ℕ → SocketCall
  bound : Option ℕ → ℕ → SocketCall
  nonblocking : Option ℕ → SocketCall
  looked_up : String → ℕ → SocketCall
  -- To no endpoint: back to the state without a receiver.
  connected : Option ℕ → Option UdpEndpoint → SocketCall
  closed : Option ℕ → SocketCall

-- The system's sockets: the ends of `socket`, of `getaddrinfo`, and of the calls that answer 0 or an
-- `errno`, each by its number; the descriptors that are open; and what was asked, oldest first.
pub record Kernel : Type 0 where
  pub create : ℕ → Option ℕ
  pub resolve : ℕ → Resolution
  pub failure : ℕ → Option Errno
  pub calls : ℕ
  pub handles : List ℕ
  pub asked : List SocketCall

pub record World : Type 0 where
  pub clock : ℕ → Timespec
  pub clock_calls : ℕ
  pub incoming : ℕ → Incoming
  pub recv_calls : ℕ
  -- By the number of bytes that the call is to send.
  pub outgoing : ℕ → ℕ → SysResult
  pub send_calls : ℕ
  pub errno : Errno
  pub kernel : Kernel
  -- Oldest first.
  pub sent : List Packet

-- A datagram is sent whole or not at all, as POSIX says of `sendto`.
abbrev pub IsDatagramService : World → Type 0
IsDatagramService w = (i n k : ℕ) → w.outgoing i n ≡ done k → k ≡ n

-- The reading that the next call of time_now() gives: milliseconds, modulo 2^32.
abbrev pub now : World → ℕ
now w = u32 ((w.clock w.clock_calls).tv_sec * 1000 + (w.clock w.clock_calls).tv_nsec / 1000000)

unfoldable pub time_now : World → ℕ × World
time_now w = (now w, record w { clock_calls = w.clock_calls + 1 })
