-- ===== src/StreamSocket/Recv.antt =====
-- net/stream_socket_base.hpp: `recv_awaiter` of a stream socket.
pub mod Delivery
pub mod Ending
mod Examples
use co_wq.Prelude.{
  ℕ, ◌-◌, Bool, true, false, not, ◌&&◌, Option, none, some, List, [], ◌∷◌, ◌++◌, leb, ltb, ◌==◌,
  if◌then◌else◌, length,
}
use co_wq.Serial.{Attempt, progress, complete, would_block}
use co_wq.StreamSocket.{Errno, Received, got, not_got, Kernel, is_again, Return, count, minus_one}

-- `buf` holds what has been received, so that `recvd` is its length. `err` is the first error, and
-- `rx_eof` is the socket's flag.
pub record RecvAwaiter (K : Type 0) : Type 0 where
  pub full : Bool
  pub len : ℕ
  pub buf : List ℕ
  pub err : Option Errno
  pub rx_eof : Bool
  pub kernel : K

-- `recv_awaiter(s, buf, len, full)`
pub recv_awaiter : {K : Type 0} → Bool → ℕ → Bool → K → RecvAwaiter K
recv_awaiter full len rx_eof k = record {
  full = full;
  len = len;
  buf = [];
  err = none;
  rx_eof = rx_eof;
  kernel = k;
}

module _ {K : Type 0} (os : Kernel K) where
  -- The branches behind the call, on its result.
  pub on_received : RecvAwaiter K → Received → Attempt × RecvAwaiter K
  on_received a (got (b ∷ bs)) =
      let a' = record a { buf = a.buf ++ b ∷ bs } in
      (if not a.full then complete else if length a'.buf == a.len then complete else progress, a')
  on_received a (got []) = (complete, record a { rx_eof = true })
  on_received a (not_got e) =
      if is_again e
      then (if not a.full && ltb 0 (length a.buf) then complete else would_block, a)
      else (complete, if length a.buf == 0 then record a { err = some e } else a)

  pub recv_attempt_once : RecvAwaiter K → Attempt × RecvAwaiter K
  recv_attempt_once a =
      let (r, k) = os.recv (a.len - length a.buf) a.kernel in
      if leb a.len (length a.buf) then (complete, a) else on_received (record a { kernel = k }) r

abbrev pub return_of : Option Errno → ℕ → Return
return_of none n = count n
return_of (some e) n = if n == 0 then minus_one e else count n

pub recv_await_resume : {K : Type 0} → RecvAwaiter K → Return
recv_await_resume a = return_of a.err (length a.buf)
