-- ===== src/Listener/Examples.antt =====
-- A listener with a connection that comes between the two tries, and one that is closed while a coroutine waits.
use co_wq.Prelude.{ℕ, refl, Option, none, some, List, [], ◌∷◌}
use co_wq.EpollReactor.{succeeded, Epoll}
use co_wq.StreamSocket.{eagain, errno}
use co_wq.Listener.{
  Accepted, accepted, not_accepted, Acceptor, StreamListener, accept_await_suspend, close_listener,
}
use co_wq.Listener.Accepting.{AcceptsQueue, TookFrom, Released, close_listener-Released}

-- What later calls find: a connection, or nothing yet.
abbrev take_first : List (Option ℕ) → Accepted × List (Option ℕ)
take_first [] = (not_accepted eagain, [])
take_first (none ∷ later) = (not_accepted eagain, later)
take_first (some fd ∷ later) = (accepted fd, later)

abbrev accept_from : Option ℕ → List (Option ℕ) → Accepted × List (Option ℕ)
accept_from none k = (not_accepted (errno 9), k)
accept_from (some fd) k = take_first k

abbrev net : Acceptor (List (Option ℕ))
net = record { accept = accept_from }

abbrev to_come : List (Option ℕ) → List ℕ
to_come [] = []
to_come (none ∷ later) = to_come later
to_come (some fd ∷ later) = fd ∷ to_come later

net-in_order :
    (fd : Option ℕ) (k : List (Option ℕ))
    → TookFrom (accept_from fd k).0 (to_come k) (to_come (accept_from fd k).1)
net-in_order none k = refl
net-in_order (some fd) [] = refl
net-in_order (some fd) (none ∷ later) = refl
net-in_order (some fd) (some c ∷ later) = refl

net-AcceptsQueue : AcceptsQueue net
net-AcceptsQueue = record { coming = to_come; in_order = net-in_order; closed = λ k. refl }

abbrev epoll : Epoll (Unit {0})
epoll = record { epoll_ctl = λ op fd ev k. (succeeded, k) }

abbrev listener : StreamListener (List (Option ℕ)) (Unit {0})
listener = record {
  fd = some 4;
  reactor = record { fds = []; kernel = tt; resets = []; expired = []; posted = [] };
  backlog = none ∷ some 9 ∷ [];
  closed_fds = [];
}

close_listener-Released_example :
    Released epoll net net-AcceptsQueue 4 7 listener
      (close_listener epoll (accept_await_suspend epoll 4 7 listener))
close_listener-Released_example =
    close_listener-Released epoll net net-AcceptsQueue 4 7 listener refl
