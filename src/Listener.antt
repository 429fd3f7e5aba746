-- ===== src/Listener.antt =====
-- net/stream_listener_base.hpp: a listening socket with its closing, and `accept_awaiter`. The system calls are
-- parameters. `_reactor` is never null.
pub mod Accepting
mod Examples
use co_wq.Prelude.{ℕ, Bool, true, false, Option, none, some, List, [], ◌∷◌, ◌++◌, if◌then◌else◌}
use co_wq.EpollReactor.{Epoll, EpollReactor, epollin, add_fd, remove_fd, add_waiter}
use co_wq.StreamSocket.{Errno, is_again}

-- What `os::accept` returns: the descriptor of a connection, or -1.
pub data Accepted : Type 0 where
  accepted : ℕ → Accepted
  not_accepted : Errno → Accepted

-- `os::accept` on the listener's descriptor, which is `none` for `os::invalid_fd()`.
pub record Acceptor (A : Type 0) : Type 0 where
  pub accept : Option ℕ → A → Accepted × A

-- `try_accept`: a descriptor, -1, or `accept_fatal()`.
pub data Outcome : Type 0 where
  new_fd : ℕ → Outcome
  nothing_yet accept_fatal : Outcome

abbrev pub outcome_of : Accepted → Outcome
outcome_of (accepted fd) = new_fd fd
outcome_of (not_accepted e) = if is_again e then nothing_yet else accept_fatal

-- `newfd >= 0 || newfd == accept_fatal()`
abbrev pub is_ready : Outcome → Bool
is_ready (new_fd fd) = true
is_ready nothing_yet = false
is_ready accept_fatal = true

-- `backlog` is the kernel's side of the listener, and `closed_fds` are the descriptors given to `os::close_fd`.
pub record StreamListener (A K : Type 0) : Type 0 where
  pub fd : Option ℕ
  pub reactor : EpollReactor K
  pub backlog : A
  pub closed_fds : List ℕ

module _ {A K : Type 0} (os : Epoll K) where
  -- The constructor, with the socket that was created: none makes it throw.
  unfoldable pub stream_listener : Option ℕ → EpollReactor K → A → Option (StreamListener A K)
  stream_listener none reactor backlog = none
  stream_listener (some fd) reactor backlog =
      some (record {
        fd = some fd;
        reactor = add_fd os fd reactor;
        backlog = backlog;
        closed_fds = [];
      })

  abbrev pub close_listener_of : Option ℕ → StreamListener A K → StreamListener A K
  close_listener_of none l = l
  close_listener_of (some fd) l = record l {
    fd = none;
    reactor = remove_fd os fd l.reactor;
    closed_fds = l.closed_fds ++ fd ∷ [];
  }

  unfoldable pub close_listener : StreamListener A K → StreamListener A K
  close_listener l = close_listener_of l.fd l

module _ {A K : Type 0} (net : Acceptor A) where
  unfoldable pub try_accept : StreamListener A K → Outcome × StreamListener A K
  try_accept l =
      let (r, backlog) = net.accept l.fd l.backlog in (outcome_of r, record l { backlog = backlog })

  -- `await_resume` of an awaiter whose first try came out so.
  unfoldable pub accept_await_resume : Outcome → StreamListener A K → Outcome × StreamListener A K
  accept_await_resume newfd l = if is_ready newfd then (newfd, l) else try_accept l

module _ {A K : Type 0} (os : Epoll K) where
  -- `await_suspend`, with the listener's descriptor. It follows a first try that found nothing yet.
  unfoldable pub accept_await_suspend : ℕ → ℕ → StreamListener A K → StreamListener A K
  accept_await_suspend fd waiter l = record l {
    reactor = add_waiter os fd epollin waiter l.reactor;
  }
