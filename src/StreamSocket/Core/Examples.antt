-- ===== src/StreamSocket/Core/Examples.antt =====
-- A socket at concrete inputs: one coroutine that sends, one that waits for its turn to send, and a waiter in
-- the reactor.
use co_wq.Prelude.{refl, true, false, some, [], ◌∷◌}
use co_wq.Serial.{Executor}
use co_wq.EpollReactor.{succeeded, Epoll, WaiterItem, EpollReactor, epollout}
use co_wq.EpollReactor.Entries.{no_entry, entry}
use co_wq.StreamSocket.Core.{SocketCore, close_fd}
use co_wq.StreamSocket.Core.Closing.{IsClosed, close_fd-IsClosed}

abbrev epoll : Epoll (Unit {0})
epoll = record { epoll_ctl = λ op fd ev k. (succeeded, k) }

abbrev idle_executor : Executor
idle_executor = record { queue = []; trigs = 0 }

abbrev sending : WaiterItem
sending = record { mask = epollout; waiter = 1; has_timeout = false; deadline = 0 }

abbrev busy_reactor : EpollReactor (Unit {0})
busy_reactor = record {
  fds = (5, record { waiters = sending ∷ []; interest = epollout }) ∷ [];
  kernel = tt;
  resets = [];
  expired = [];
  posted = [];
}

abbrev busy_socket : SocketCore (Unit {0})
busy_socket = record {
  fd = some 5;
  closed = false;
  send_q = record { locked = true; waiters = 2 ∷ [] };
  recv_q = record { locked = false; waiters = [] };
  exec = idle_executor;
  reactor = busy_reactor;
  rx_eof = false;
  tx_shutdown = false;
  syscalls = [];
}

close_fd-IsClosed_example : IsClosed epoll 5 busy_socket (close_fd epoll busy_socket)
close_fd-IsClosed_example = close_fd-IsClosed epoll 5 busy_socket refl (entry 5 _ [] refl no_entry)
