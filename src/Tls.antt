-- ===== src/Tls.antt =====
-- net/tls.hpp: the awaiters of `basic_tls_socket`, while the socket is open. OpenSSL is a parameter, the state of one
-- `SSL` object: its state also holds what will arrive. A negative number is its magnitude here.
pub mod Receiving
pub mod Sending
pub mod Handshake
pub mod Socket
pub mod Ending
mod Examples
use co_wq.Prelude.{
  ℕ, ◌^◌, ◌%◌, Option, none, some, ◌-◌, Bool, true, false, not, ◌||◌, List, [], ◌∷◌, ◌++◌, leb, ltb,
  ◌==◌, if◌then◌else◌, length, drop, suc, ◌+◌,
}
use co_wq.EpollReactor.{epollin, epollout}
use co_wq.Serial.{Attempt, progress, complete, would_block}

-- What `SSL_get_error` returns, with OpenSSL's numbers.
abbrev pub ssl_error_ssl : ℕ
ssl_error_ssl = 1

abbrev pub ssl_error_want_read : ℕ
ssl_error_want_read = 2

abbrev pub ssl_error_want_write : ℕ
ssl_error_want_write = 3

abbrev pub ssl_error_syscall : ℕ
ssl_error_syscall = 5

abbrev pub ssl_error_zero_return : ℕ
ssl_error_zero_return = 6

abbrev pub eio : ℕ
eio = 5

abbrev pub econnreset : ℕ
econnreset = 104

-- A failed call: what `SSL_get_error` says of it, and `errno`.
pub record Failure : Type 0 where
  pub ssl_err : ℕ
  pub errno : ℕ

-- `SSL_read` stored these bytes (none for 0), `SSL_write` took so many, or they failed; the handshake is done, or not.
pub data SslRead : Type 0 where
  stored : List ℕ → SslRead
  not_read : Failure → SslRead

pub data SslWritten : Type 0 where
  wrote : ℕ → SslWritten
  not_written : Failure → SslWritten

pub data SslHandshake : Type 0 where
  done : SslHandshake
  not_done : Failure → SslHandshake

-- `static_cast<int>(n)` of a `size_t`, on 32 bits: `none` for a negative number.
abbrev pub to_int : ℕ → Option ℕ
to_int n = let m = n % 2 ^ 32 in if ltb m (2 ^ 31) then some m else none

-- How many bytes a call with such a number may store or take.
abbrev pub size_of : Option ℕ → ℕ
size_of none = 0
size_of (some n) = n

-- `SSL_write` gets the bytes from `buf + sent` on, and the number as an `int`, as `SSL_read` does.
pub record Ssl (K : Type 0) : Type 0 where
  pub ssl_read : Option ℕ → K → SslRead × K
  pub ssl_write : List ℕ → Option ℕ → K → SslWritten × K
  pub ssl_do_handshake : K → SslHandshake × K

unfoldable pub translate_failure : Failure → ℕ
translate_failure f =
    if f.ssl_err == ssl_error_syscall
    then (if f.errno == 0 then eio else f.errno)
    else if f.ssl_err == ssl_error_ssl
    then eio
    else if f.ssl_err == ssl_error_zero_return
    then econnreset
    else f.ssl_err

-- `ssl_err == SSL_ERROR_WANT_READ || ssl_err == SSL_ERROR_WANT_WRITE`, and the mask that is then waited for.
abbrev pub wants : ℕ → Bool
wants ssl_err = ssl_err == ssl_error_want_read || ssl_err == ssl_error_want_write

abbrev pub mask_of : ℕ → ℕ
mask_of ssl_err = if ssl_err == ssl_error_want_read then epollin else epollout

-- What an awaiter returns: a count, or a negative error.
pub data Result : Type 0 where
  count : ℕ → Result
  negative : ℕ → Result

abbrev pub result_of : ℕ → ℕ → Result
result_of err n = if ltb 0 err then (if n == 0 then negative err else count n) else count n

-- `recv_awaiter`. `buf` holds what has been received, so that `recvd` is its length.
pub record RecvAwaiter (K : Type 0) : Type 0 where
  pub full : Bool
  pub len : ℕ
  pub buf : List ℕ
  pub err : ℕ
  pub wait_mask : ℕ
  pub rx_eof : Bool
  pub ssl : K

unfoldable pub recv_awaiter : {K : Type 0} → Bool → ℕ → Bool → K → RecvAwaiter K
recv_awaiter full len rx_eof k = record {
  full = full;
  len = len;
  buf = [];
  err = 0;
  wait_mask = 0;
  rx_eof = rx_eof;
  ssl = k;
}

-- The mask of `register_wait`.
unfoldable pub recv_mask : {K : Type 0} → RecvAwaiter K → ℕ
recv_mask a = if a.wait_mask == 0 then epollin else a.wait_mask

abbrev pub recv_failed : {K : Type 0} → RecvAwaiter K → Failure → Attempt × RecvAwaiter K
recv_failed a f =
    if wants f.ssl_err
    then (would_block, record a { wait_mask = mask_of f.ssl_err })
    else if f.ssl_err == ssl_error_zero_return
    then (complete, record a { rx_eof = true })
    else (complete, record a { err = translate_failure f })

abbrev pub on_read : {K : Type 0} → RecvAwaiter K → SslRead → Attempt × RecvAwaiter K
on_read a (stored (b ∷ bs)) =
    let a' = record a { buf = a.buf ++ b ∷ bs } in
    (if not a.full then complete else if length a'.buf == a.len then complete else progress, a')
on_read a (stored []) = (complete, record a { rx_eof = true })
on_read a (not_read f) = recv_failed a f

module _ {K : Type 0} (os : Ssl K) where
  unfoldable pub recv_attempt_once : RecvAwaiter K → Attempt × RecvAwaiter K
  recv_attempt_once a =
      let (r, k) = os.ssl_read (to_int (a.len - length a.buf)) a.ssl in
      if leb a.len (length a.buf) then (complete, a) else on_read (record a { ssl = k }) r

unfoldable pub recv_await_resume : {K : Type 0} → RecvAwaiter K → Result
recv_await_resume a = result_of a.err (length a.buf)

-- `send_awaiter`, with the bytes of `buf`.
pub record SendAwaiter (K : Type 0) : Type 0 where
  pub full : Bool
  pub buf : List ℕ
  pub sent : ℕ
  pub err : ℕ
  pub wait_mask : ℕ
  pub tx_shutdown : Bool
  pub ssl : K

unfoldable pub send_awaiter : {K : Type 0} → Bool → List ℕ → Bool → K → SendAwaiter K
send_awaiter full buf tx_shutdown k = record {
  full = full;
  buf = buf;
  sent = 0;
  err = 0;
  wait_mask = 0;
  tx_shutdown = tx_shutdown;
  ssl = k;
}

unfoldable pub send_mask : {K : Type 0} → SendAwaiter K → ℕ
send_mask a = if a.wait_mask == 0 then epollout else a.wait_mask

abbrev pub send_failed : {K : Type 0} → SendAwaiter K → Failure → Attempt × SendAwaiter K
send_failed a f =
    if wants f.ssl_err
    then (would_block, record a { wait_mask = mask_of f.ssl_err })
    else if f.ssl_err == ssl_error_zero_return
    then (complete, record a { tx_shutdown = true })
    else (complete, record a { err = translate_failure f })

abbrev pub on_written : {K : Type 0} → SendAwaiter K → SslWritten → Attempt × SendAwaiter K
on_written a (wrote n) =
    let a' = record a { sent = a.sent + n } in
    if ltb 0 n
    then (
      if not a.full then complete else if a'.sent == length a.buf then complete else progress,
      a',
    )
    else (complete, record a { tx_shutdown = true })
on_written a (not_written f) = send_failed a f

module _ {K : Type 0} (os : Ssl K) where
  unfoldable pub send_attempt_once : SendAwaiter K → Attempt × SendAwaiter K
  send_attempt_once a =
      let (r, k) = os.ssl_write (drop a.sent a.buf) (to_int (length a.buf - a.sent)) a.ssl in
      if leb (length a.buf) a.sent then (complete, a) else on_written (record a { ssl = k }) r

unfoldable pub send_await_resume : {K : Type 0} → SendAwaiter K → Result
send_await_resume a = result_of a.err a.sent
