-- ===== src/StreamSocket.antt =====
-- net/stream_socket_base.hpp: the sockets' reads and writes as awaiters of the two-phase loop, and the life
-- of the descriptor. The kernel is a parameter, the state of one descriptor's calls: its state also holds
-- what will arrive, so that a later call may find bytes that an earlier one did not.
pub mod Recv
pub mod Send
pub mod Core
pub mod Connect
pub mod Datagram
use co_wq.Prelude.{ℕ, Bool, true, false, ◌||◌, List, [], ◌∷◌, ◌++◌}

-- `errno` after a call, as far as the sources distinguish it. `eagain` is also `EWOULDBLOCK`.
pub data Errno : Type 0 where
  eagain epipe econnreset enotconn ecanceled etimedout einprogress : Errno
  errno : ℕ → Errno

-- What a read returns: the bytes that it stored (none is the end of the stream), or -1.
pub data Received : Type 0 where
  got : List ℕ → Received
  not_got : Errno → Received

-- What a write returns: how many bytes it took, or -1.
pub data Sent : Type 0 where
  took : ℕ → Sent
  not_took : Errno → Sent

-- `os::recv`, `os::send` and `os::writev` on one descriptor.
pub record Kernel (K : Type 0) : Type 0 where
  pub recv : ℕ → K → Received × K
  pub send : List ℕ → K → Sent × K
  pub writev : List (List ℕ) → K → Sent × K

-- `errno == EAGAIN || errno == EWOULDBLOCK`
abbrev pub is_again : Errno → Bool
is_again eagain = true
is_again epipe = false
is_again econnreset = false
is_again enotconn = false
is_again ecanceled = false
is_again etimedout = false
is_again einprogress = false
is_again (errno n) = false

-- `errno == EPIPE || errno == ECONNRESET || errno == ENOTCONN`
abbrev pub is_broken : Errno → Bool
is_broken eagain = false
is_broken epipe = true
is_broken econnreset = true
is_broken enotconn = true
is_broken ecanceled = false
is_broken etimedout = false
is_broken einprogress = false
is_broken (errno n) = false

-- What an awaiter returns: a count, or -1 with this `errno`.
pub data Return : Type 0 where
  count : ℕ → Return
  minus_one : Errno → Return
