-- ===== src/StreamSocket/Core/Closing.antt =====
-- Closing a socket leaves nobody waiting.
use co_wq.Prelude.{ℕ, ◌≡◌, ◌≢◌, refl, true, none, some, [], ◌∷◌, ◌++◌, sym, subst}
use co_wq.Serial.{serial_collect_waiters}
use co_wq.Serial.Closing.{Closed, collect-Closed}
use co_wq.EpollReactor.{Epoll, find, names, waiters_of, remove_fd}
use co_wq.EpollReactor.Entries.{Distinct, find-erase, find-erase_other}
use co_wq.StreamSocket.Core.{SocketCore, close_os, close_of, close_fd}

module _ {K : Type 0} (os : Epoll K) where
  -- What closing the descriptor `fd` did to the socket, its executor and its reactor.
  pub record IsClosed (fd : ℕ) (c c' : SocketCore K) : Type 0 where
    pub gone : c'.fd ≡ none
    pub closed : c'.closed ≡ true
    pub queues : Closed (c.send_q ∷ c.recv_q ∷ []) (c'.send_q ∷ c'.recv_q ∷ []) c.exec c'.exec
    pub entry : find fd c'.reactor.fds ≡ none
    pub others : (f : ℕ) → fd ≢ f → find f c'.reactor.fds ≡ find f c.reactor.fds
    pub posted : c'.reactor.posted ≡ c.reactor.posted ++ names (waiters_of (find fd c.reactor.fds))
    pub given_back : c'.syscalls ≡ c.syscalls ++ close_os fd ∷ []
    pub once : close_fd os c' ≡ c'

  -- Closing an open socket hands over everyone who waits on it: the awaiters in the two serial queues to the
  -- executor, sending before receiving, each to resume its coroutine, with one wake-up or none; and
  -- the waiters of the descriptor in the reactor, which forgets the descriptor and keeps the others. The
  -- descriptor is given back, and closing once more does nothing.
  pub close_fd-IsClosed :
      (fd : ℕ) (c : SocketCore K)
      → c.fd ≡ some fd
      → Distinct c.reactor.fds
      → IsClosed fd c (close_fd os c)
  unfolding close_fd remove_fd serial_collect_waiters
  close_fd-IsClosed fd c e d =
      subst (λ o. IsClosed fd c (close_of os o c)) (sym e)
        (record {
          gone = refl;
          closed = refl;
          queues = collect-Closed (c.send_q ∷ c.recv_q ∷ []) c.exec;
          entry = find-erase fd c.reactor.fds d;
          others = λ f n. find-erase_other f fd c.reactor.fds n;
          posted = refl;
          given_back = refl;
          once = refl;
        })
