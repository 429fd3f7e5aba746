-- ===== src/StreamSocket/Connect/Examples.antt =====
-- A connect at concrete inputs: the kernel answers that it is in progress.
use co_wq.EpollReactor.{Epoll, succeeded}
use co_wq.StreamSocket.Connect.Outcome.{Outcome}

abbrev epoll : Epoll (Unit {0})
epoll = record { epoll_ctl = λ op fd ev k. (succeeded, k) }
