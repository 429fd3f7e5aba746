-- ===== src/EpollReactor/Wiring.antt =====
-- io/epoll_reactor.hpp: which calls leave the kernel watching what the waiters wait for.
use co_wq.Prelude.{Option}
use co_wq.EpollReactor.{Epoll}
use co_wq.EpollReactor.Threads.{Shared, is_removed}
use co_wq.EpollReactor.Interest.{Watches, Wired}

module _ {K : Type 0} (os : Epoll K) (kernel : Watches os) where
  -- Those descriptors that are not being removed.
  abbrev pub IsWired : Shared K → Type 0
  IsWired s = Wired os kernel (λ f. is_removed f s.removals) s.reactor.fds s.reactor.kernel
