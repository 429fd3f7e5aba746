-- ===== src/EpollReactor/Examples.antt =====
-- A reactor at concrete inputs: a reader and a writer of one descriptor, a connecting waiter with a timeout
-- of another, and a kernel that keeps what it watches as a function.
use co_wq.Prelude.{
  ℕ, ◌+◌, ◌≡◌, ◌≢◌, refl, true, false, Option, none, some, List, [], ◌∷◌, ◌==◌, if◌then◌else◌,
}
use co_wq.EpollReactor.{
  CtlOp, ctl_add, ctl_mod, ctl_del, CtlResult, succeeded, no_entry, Epoll, WaiterItem, EpollReactor,
  epoll_reactor, epollin, epollout, check_timeouts, ready, add_fd, register_waiter,
  update_fd_interest_unlocked,
}
use co_wq.EpollReactor.Threads.{unshared, Event, adds, unlists, finishes, registers, round, run}
use co_wq.EpollReactor.Entries.{same_key_refl, other_key}
use co_wq.EpollReactor.Interest.{Watches}
use co_wq.EpollReactor.Handover.{times, waiting, in_hand, registrations, run-epoll_reactor}
use co_wq.EpollReactor.Waking.{Punctual, check_timeouts-Punctual}

abbrev Watched : Type 0
Watched = ℕ → Option ℕ

abbrev set : ℕ → Option ℕ → (ℕ → Option ℕ) → ℕ → Option ℕ
set fd o k f = if fd == f then o else k f

abbrev answer_mod : ℕ → ℕ → Option ℕ → (ℕ → Option ℕ) → CtlResult × (ℕ → Option ℕ)
answer_mod fd ev none k = (no_entry, k)
answer_mod fd ev (some old) k = (succeeded, set fd (some ev) k)

abbrev ctl : CtlOp → ℕ → ℕ → (ℕ → Option ℕ) → CtlResult × (ℕ → Option ℕ)
ctl ctl_add fd ev k = (succeeded, set fd (some ev) k)
ctl ctl_mod fd ev k = answer_mod fd ev (k fd) k
ctl ctl_del fd ev k = (succeeded, set fd none k)

abbrev kernel : Epoll Watched
kernel = record { epoll_ctl = ctl }

set_here : (fd : ℕ) (o : Option ℕ) (k : Watched) → set fd o k fd ≡ o
set_here fd o k = rw (same_key_refl fd) refl

set_other : (f fd : ℕ) (o : Option ℕ) (k : Watched) → fd ≢ f → set fd o k f ≡ k f
set_other f fd o k n = rw (other_key fd f n) refl

mod_others : (f fd ev : ℕ) (o : Option ℕ) (k : Watched) → fd ≢ f → (answer_mod fd ev o k).1 f ≡ k f
mod_others f fd ev none k n = refl
mod_others f fd ev (some old) k n = set_other f fd (some ev) k n

ctl_others : (op : CtlOp) (f fd ev : ℕ) (k : Watched) → fd ≢ f → (ctl op fd ev k).1 f ≡ k f
ctl_others ctl_add f fd ev k n = set_other f fd (some ev) k n
ctl_others ctl_mod f fd ev k n = mod_others f fd ev (k fd) k n
ctl_others ctl_del f fd ev k n = set_other f fd none k n

kernel-Watches : Watches kernel
kernel-Watches = record {
  watched = λ k. k;
  mod_there = λ fd ev old k e. rw e (refl, set_here fd (some ev) k);
  mod_absent = λ fd ev k e. rw e (refl, e);
  add_absent = λ fd ev k e. set_here fd (some ev) k;
  del = λ fd ev k. set_here fd none k;
  others = ctl_others;
}

abbrev reader : WaiterItem
reader = record { mask = epollin; waiter = 1; has_timeout = false; deadline = 0 }

abbrev writer : WaiterItem
writer = record { mask = epollout; waiter = 2; has_timeout = false; deadline = 0 }

abbrev connecting : WaiterItem
connecting = record { mask = epollout; waiter = 3; has_timeout = true; deadline = 10 }

-- The reader's descriptor becomes readable, and the connecting waiter's time runs out. While the first
-- descriptor is being removed somebody registers for the other one.
abbrev story : List Event
story =
    adds 5
    ∷ registers 5 true reader
    ∷ registers 5 true writer
    ∷ registers 6 false connecting
    ∷ round 7 (ready ((5, epollin) ∷ [])) 12
    ∷ unlists 5
    ∷ registers 6 true reader
    ∷ finishes 0
    ∷ []

abbrev nothing_watched : Watched
nothing_watched fd = none

run-epoll_reactor_example :
    times 2 (waiting (run kernel story (unshared nothing_watched)).reactor.fds)
      + in_hand 2 (run kernel story (unshared nothing_watched)).removals
      + times 2 (run kernel story (unshared nothing_watched)).reactor.posted
    ≡ registrations 2 story
run-epoll_reactor_example = run-epoll_reactor 2 kernel nothing_watched story

-- The number 5 was closed and given out again, and a reader registers for the new file before the old one's
-- `remove_fd` has come to its `EPOLL_CTL_DEL`.
abbrev reused : List Event
reused = adds 5 ∷ unlists 5 ∷ registers 5 true reader ∷ finishes 0 ∷ []

-- The reader waits, its interest is set, and the kernel does not watch the descriptor.
reused_waits :
    (run kernel reused (unshared nothing_watched)).reactor.fds
    ≡ (5, record { waiters = reader ∷ []; interest = 1 }) ∷ []
unfolding add_fd register_waiter update_fd_interest_unlocked epoll_reactor
reused_waits = refl

reused-unwatched : (run kernel reused (unshared nothing_watched)).reactor.kernel 5 ≡ none
unfolding add_fd register_waiter update_fd_interest_unlocked epoll_reactor
reused-unwatched = refl

abbrev waiting_reactor : EpollReactor Watched
waiting_reactor = record {
  fds =
      (5, record { waiters = reader ∷ writer ∷ []; interest = 5 })
      ∷ (6, record { waiters = connecting ∷ []; interest = 4 })
      ∷ [];
  kernel = nothing_watched;
  resets = [];
  expired = [];
  posted = [];
}

check_timeouts-Punctual_example :
    Punctual kernel 12 waiting_reactor (check_timeouts kernel 12 waiting_reactor)
check_timeouts-Punctual_example = check_timeouts-Punctual kernel 12 waiting_reactor
