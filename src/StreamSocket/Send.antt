-- ===== src/StreamSocket/Send.antt =====
-- net/stream_socket_base.hpp: `send_awaiter` of a stream socket, for a buffer and for an `iovec`.
pub mod Vector
pub mod Delivery
pub mod Rounds
pub mod VectorRounds
pub mod Ending
pub mod Settling
mod Examples
use co_wq.Prelude.{
  ℕ, zero, suc, ◌+◌, ◌-◌, Bool, true, false, ◌||◌, Option, none, some, List, [], ◌∷◌, ◌++◌, leb,
  ◌==◌, if◌then◌else◌, length, drop,
}
use co_wq.Serial.{Attempt, complete, would_block}
use co_wq.StreamSocket.{
  Errno, Sent, took, not_took, Kernel, is_again, is_broken, Return, count, minus_one,
}

-- An element of `vec` is the bytes that its `iovec` still names. `err` is the first error, and
-- `tx_shutdown` is the socket's flag.
pub record SendAwaiter (K : Type 0) : Type 0 where
  pub full : Bool
  pub buf : List ℕ
  pub len : ℕ
  pub vec : List (List ℕ)
  pub use_vec : Bool
  pub sent : ℕ
  pub err : Option Errno
  pub tx_shutdown : Bool
  pub kernel : K

-- The sum of the lengths, and the bytes themselves.
abbrev pub total : List (List ℕ) → ℕ
total [] = 0
total (v ∷ vec) = length v + total vec

abbrev pub concat : List (List ℕ) → List ℕ
concat [] = []
concat (v ∷ vec) = v ++ concat vec

-- `send_awaiter(s, b, l, f)` and `send_awaiter(s, iov, iovcnt, f)`
unfoldable pub send_awaiter : {K : Type 0} → List ℕ → Bool → Bool → K → SendAwaiter K
send_awaiter b full tx_shutdown k = record {
  full = full;
  buf = b;
  len = length b;
  vec = [];
  use_vec = false;
  sent = 0;
  err = none;
  tx_shutdown = tx_shutdown;
  kernel = k;
}

unfoldable pub send_vec_awaiter : {K : Type 0} → List (List ℕ) → Bool → Bool → K → SendAwaiter K
send_vec_awaiter iov full tx_shutdown k = record {
  full = full;
  buf = [];
  len = total iov;
  vec = iov;
  use_vec = true;
  sent = 0;
  err = none;
  tx_shutdown = tx_shutdown;
  kernel = k;
}

unfoldable pub advance_iov : ℕ → List (List ℕ) → List (List ℕ)
advance_iov n [] = []
advance_iov n (v ∷ vec) =
    let rest = advance_iov (n - length v) vec in
    if n == 0 then v ∷ vec else if leb (length v) n then rest else drop n v ∷ vec

abbrev pub is_empty : List (List ℕ) → Bool
is_empty [] = true
is_empty (v ∷ vec) = false

module _ {K : Type 0} (os : Kernel K) where
  -- What both loops do after a call that returned -1.
  pub not_sent : SendAwaiter K → Errno → Attempt × SendAwaiter K
  not_sent a e =
      if is_again e
      then (if a.full then would_block else complete, a)
      else (complete, record a { err = some e; tx_shutdown = is_broken e || a.tx_shutdown })

  -- The rest of a round after `os::send`, and after `os::writev`, with the next rounds as `again`.
  pub after_send :
      (SendAwaiter K → Attempt × SendAwaiter K) → SendAwaiter K → Sent → Attempt × SendAwaiter K
  after_send again a (took zero) = (complete, a)
  after_send again a (took (suc n)) =
      let a' = record a { sent = a.sent + suc n } in
      let rest = again a' in if a'.sent == a.len then (complete, a') else rest
  after_send again a (not_took e) = not_sent a e

  pub after_writev :
      (SendAwaiter K → Attempt × SendAwaiter K) → SendAwaiter K → Sent → Attempt × SendAwaiter K
  after_writev again a (took zero) = (complete, a)
  after_writev again a (took (suc n)) =
      let a' = record a { sent = a.sent + suc n; vec = advance_iov (suc n) a.vec } in
      let rest = again a' in if is_empty a'.vec then (complete, a') else rest
  after_writev again a (not_took e) = not_sent a e

  -- The two loops.
  pub send_rounds : ℕ → SendAwaiter K → Attempt × SendAwaiter K
  send_rounds zero a = (complete, a)
  send_rounds (suc fuel) a =
      let (r, k) = os.send (drop a.sent a.buf) a.kernel in
      let round = after_send (send_rounds fuel) (record a { kernel = k }) r in
      if leb a.len a.sent then (complete, a) else round

  pub writev_rounds : ℕ → SendAwaiter K → Attempt × SendAwaiter K
  writev_rounds zero a = (complete, a)
  writev_rounds (suc fuel) a =
      let (r, k) = os.writev a.vec a.kernel in
      let round = after_writev (writev_rounds fuel) (record a { kernel = k }) r in
      if is_empty a.vec then (complete, a) else round

  -- Each round takes a byte at least, so there are at most as many as bytes, and one more where the bytes
  -- are spread over an `iovec`.
  pub send_attempt_once : SendAwaiter K → Attempt × SendAwaiter K
  send_attempt_once a =
      if a.use_vec then writev_rounds (suc (total a.vec)) a else send_rounds (a.len - a.sent) a

abbrev pub return_of : Option Errno → ℕ → Return
return_of none n = count n
return_of (some e) n = if n == 0 then minus_one e else count n

unfoldable pub send_await_resume : {K : Type 0} → SendAwaiter K → Return
send_await_resume a = return_of a.err a.sent
