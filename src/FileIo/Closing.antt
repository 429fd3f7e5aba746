-- ===== src/FileIo/Closing.antt =====
-- Closing a file leaves nobody waiting, as with a socket.
use co_wq.Prelude.{ℕ, ◌≡◌, ◌≢◌, refl, true, some, none, [], ◌∷◌, ◌++◌, sym, subst}
use co_wq.Serial.{serial_collect_waiters}
use co_wq.Serial.Closing.{Closed, collect-Closed}
use co_wq.EpollReactor.{Epoll, find, names, waiters_of, remove_fd}
use co_wq.EpollReactor.Entries.{Distinct, find-erase, find-erase_other}
use co_wq.FileIo.{FileHandle, close_file_of, close_file}

module _ {K : Type 0} (os : Epoll K) where
  -- What closing the descriptor `fd` did.
  pub record IsClosed (fd : ℕ) (f f' : FileHandle K) : Type 0 where
    pub gone : f'.fd ≡ none
    pub closed : f'.closed ≡ true
    pub queues : Closed (f.read_q ∷ f.write_q ∷ []) (f'.read_q ∷ f'.write_q ∷ []) f.exec f'.exec
    pub entry : find fd f'.reactor.fds ≡ none
    pub others : (g : ℕ) → fd ≢ g → find g f'.reactor.fds ≡ find g f.reactor.fds
    pub posted : f'.reactor.posted ≡ f.reactor.posted ++ names (waiters_of (find fd f.reactor.fds))
    pub given_back : f'.closed_fds ≡ fd ∷ f.closed_fds
    pub once : close_file os f' ≡ f'

  -- Closing an open file hands over its readers and then its writers that wait for their turn, and the waiters of
  -- its descriptor in the reactor, which forgets it and keeps the others; the descriptor is given back, and
  -- closing once more does nothing.
  pub close_file-IsClosed :
      (fd : ℕ) (f : FileHandle K)
      → f.fd ≡ some fd
      → Distinct f.reactor.fds
      → IsClosed fd f (close_file os f)
  unfolding close_file remove_fd serial_collect_waiters
  close_file-IsClosed fd f e d =
      subst (λ o. IsClosed fd f (close_file_of os o f)) (sym e)
        (record {
          gone = refl;
          closed = refl;
          queues = collect-Closed (f.read_q ∷ f.write_q ∷ []) f.exec;
          entry = find-erase fd f.reactor.fds d;
          others = λ g n. find-erase_other g fd f.reactor.fds n;
          posted = refl;
          given_back = refl;
          once = refl;
        })
