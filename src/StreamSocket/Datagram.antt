-- ===== src/StreamSocket/Datagram.antt =====
-- net/stream_socket_base.hpp: the awaiters of `datagram_socket_base`, which move one datagram. The kernel is
-- a parameter, the state of one socket's calls.
pub mod Delivery
mod Examples
use co_wq.Prelude.{
  ℕ, zero, suc, Bool, true, false, Option, none, some, List, [], ◌∷◌, length, if◌then◌else◌,
}
use co_wq.Serial.{Attempt, complete, would_block}
use co_wq.StreamSocket.{
  Errno, ecanceled, Received, got, not_got, Sent, took, not_took, is_again, Return, count,
  minus_one,
}

-- `os::recvfrom`, which also tells the sender, and the four calls that send. `A` is the type of addresses.
pub record DatagramKernel (A K : Type 0) : Type 0 where
  pub recvfrom : ℕ → K → (Received × Option A) × K
  pub send : List ℕ → K → Sent × K
  pub sendto : List ℕ → A → K → Sent × K
  pub writev : List (List ℕ) → K → Sent × K
  pub sendto_vec : List (List ℕ) → A → K → Sent × K

-- `nread` is the result of the last call, `none` before it and for -1. `wants_addr` tells whether
-- `out_addr` is not null; it then holds what the last call stored.
pub record RecvfromAwaiter (A K : Type 0) : Type 0 where
  pub len : ℕ
  pub buf : List ℕ
  pub wants_addr : Bool
  pub out_addr : Option A
  pub nread : Option ℕ
  pub err : Errno
  pub kernel : K

unfoldable pub recvfrom_awaiter : {A K : Type 0} → ℕ → Bool → Errno → K → RecvfromAwaiter A K
recvfrom_awaiter len wants_addr err k = record {
  len = len;
  buf = [];
  wants_addr = wants_addr;
  out_addr = none;
  nread = none;
  err = err;
  kernel = k;
}

-- What both awaiters return: a closed socket turns a failure into `ECANCELED`.
abbrev pub datagram_return : Bool → Option ℕ → Errno → Return
datagram_return closed none err = if closed then minus_one ecanceled else minus_one err
datagram_return closed (some n) err = count n

abbrev pub again_or_done : Errno → Attempt
again_or_done e = if is_again e then would_block else complete

-- The results of the call.
abbrev pub on_recvfrom :
    {A K : Type 0} → RecvfromAwaiter A K → Received → Option A → Attempt × RecvfromAwaiter A K
on_recvfrom a (got bs) from = (
  complete,
  record a { buf = bs; nread = some (length bs); out_addr = if a.wants_addr then from else none },
)
on_recvfrom a (not_got e) from = (again_or_done e, record a { nread = none; err = e })

unfoldable pub recvfrom_await_resume : {A K : Type 0} → Bool → RecvfromAwaiter A K → Return
recvfrom_await_resume closed a = datagram_return closed a.nread a.err

-- `parts` is the buffer as one part, or the `iovec`.
pub record DatagramSendAwaiter (A K : Type 0) : Type 0 where
  pub use_vec : Bool
  pub dest : Option A
  pub buf : List ℕ
  pub vec : List (List ℕ)
  pub nsent : Option ℕ
  pub err : Errno
  pub kernel : K

-- The constructors; `nsent` starts as 0.
unfoldable pub datagram_send :
    {A K : Type 0} → List ℕ → Option A → Errno → K → DatagramSendAwaiter A K
datagram_send b dest err k = record {
  use_vec = false;
  dest = dest;
  buf = b;
  vec = [];
  nsent = some 0;
  err = err;
  kernel = k;
}

unfoldable pub datagram_sendv :
    {A K : Type 0} → List (List ℕ) → Option A → Errno → K → DatagramSendAwaiter A K
datagram_sendv iov dest err k = record {
  use_vec = true;
  dest = dest;
  buf = [];
  vec = iov;
  nsent = some 0;
  err = err;
  kernel = k;
}

abbrev pub on_datagram_sent :
    {A K : Type 0} → DatagramSendAwaiter A K → Sent → Attempt × DatagramSendAwaiter A K
on_datagram_sent a (took n) = (complete, record a { nsent = some n })
on_datagram_sent a (not_took e) = (again_or_done e, record a { nsent = none; err = e })

unfoldable pub datagram_send_await_resume : {A K : Type 0} → Bool → DatagramSendAwaiter A K → Return
datagram_send_await_resume closed a = datagram_return closed a.nsent a.err

module _ {A K : Type 0} (os : DatagramKernel A K) where
  unfoldable pub recvfrom_attempt_once : RecvfromAwaiter A K → Attempt × RecvfromAwaiter A K
  recvfrom_attempt_once a =
      let ((r, from), k) = os.recvfrom a.len a.kernel in
      on_recvfrom (record a { kernel = k }) r from

  abbrev pub send_buffer : Option A → List ℕ → K → Sent × K
  send_buffer (some d) b k = os.sendto b d k
  send_buffer none b k = os.send b k

  abbrev pub send_vector : Option A → List (List ℕ) → K → Sent × K
  send_vector (some d) iov k = os.sendto_vec iov d k
  send_vector none iov k = os.writev iov k

  unfoldable pub datagram_send_attempt_once :
      DatagramSendAwaiter A K → Attempt × DatagramSendAwaiter A K
  datagram_send_attempt_once a =
      let (r, k) =
        if a.use_vec
        then send_vector a.dest a.vec a.kernel
        else send_buffer a.dest a.buf a.kernel in
      on_datagram_sent (record a { kernel = k }) r
