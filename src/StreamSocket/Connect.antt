-- ===== src/StreamSocket/Connect.antt =====
-- net/stream_socket_base.hpp: `connect_awaiter`. The provider's address, `os::connect` and the reading of
-- `SO_ERROR` are parameters, given by their results.
pub mod Outcome
mod Examples
use co_wq.Prelude.{ℕ, zero, suc, ◌+◌, Bool, true, false, if◌then◌else◌}
use co_wq.EpollReactor.{Epoll, EpollReactor, epollout, add_waiter_with_timeout}
use co_wq.StreamSocket.{Errno, eagain, einprogress, etimedout, errno, Return, count, minus_one}

-- What `os::connect` returned.
pub data Connected : Type 0 where
  connected : Connected
  not_connected : Errno → Connected

-- What `getsockopt(SO_ERROR)` found: no error, one, or that it failed itself.
pub data SockError : Type 0 where
  no_error : SockError
  pending_error : Errno → SockError
  not_read : SockError

-- `ret_ok` tells that `ret` is 0, `has_timeout_func` that `timeout_func` is set. `posts` counts the calls of
-- `post_via_route` by the awaiter itself, and `waiter` is its address.
pub record ConnectAwaiter : Type 0 where
  pub waiter : ℕ
  pub ret_ok : Bool
  pub timed_out : Bool
  pub has_timeout_func : Bool
  pub posts : ℕ

unfoldable pub connect_awaiter : ℕ → ConnectAwaiter
connect_awaiter w = record {
  waiter = w;
  ret_ok = true;
  timed_out = false;
  has_timeout_func = false;
  posts = 0;
}

-- `kConnectTimeout`, in milliseconds.
abbrev pub connect_timeout : ℕ
connect_timeout = 10000

-- `errno != EINPROGRESS && errno != EWOULDBLOCK`, the other way round.
abbrev pub in_progress : Errno → Bool
in_progress einprogress = true
in_progress eagain = true
in_progress _ = false

abbrev pub finish : Bool → ConnectAwaiter → ConnectAwaiter
finish ok a = record a { ret_ok = ok; posts = suc a.posts }

module _ {K : Type 0} (os : Epoll K) where
  abbrev pub after_connect :
      Connected → ℕ → ℕ → ConnectAwaiter → EpollReactor K → ConnectAwaiter × EpollReactor K
  after_connect connected now fd a r = (finish true a, r)
  after_connect (not_connected e) now fd a r =
      if in_progress e
      then (
        record a { timed_out = false; has_timeout_func = true },
        add_waiter_with_timeout os fd epollout a.waiter (now + connect_timeout) r,
      )
      else (finish false a, r)

  -- `built` is the result of `provider.build`, and `now` the time of the call.
  unfoldable pub connect_await_suspend :
      Bool → Connected → ℕ → ℕ → ConnectAwaiter → EpollReactor K → ConnectAwaiter × EpollReactor K
  connect_await_suspend built c now fd a r =
      if built then after_connect c now fd a r else (finish false a, r)

-- What the reactor calls before it posts a waiter whose time has run out.
unfoldable pub timeout_cb : ConnectAwaiter → ConnectAwaiter
timeout_cb a = record a { timed_out = true; ret_ok = false; has_timeout_func = false }

abbrev pub error_return : SockError → Return
error_return no_error = count 0
error_return (pending_error e) = minus_one e
error_return not_read = minus_one (errno 0)

-- `saved` is the thread's `errno` where the awaiter returns its own -1.
unfoldable pub connect_await_resume : SockError → Errno → ConnectAwaiter → Return × ConnectAwaiter
connect_await_resume so saved a =
    let cleared = record a { has_timeout_func = false } in
    if a.timed_out
    then (minus_one etimedout, record a { has_timeout_func = false; timed_out = false })
    else if a.ret_ok
    then (error_return so, cleared)
    else (minus_one saved, cleared)
