-- ===== src/StreamSocket/Core.antt =====
-- net/stream_socket_base.hpp: `socket_core` and the flags of `stream_socket_base`, the life of one
-- descriptor with its two serial queues, its executor and its reactor. `_reactor` is never null.
pub mod Closing
pub mod Calls
mod Examples
use co_wq.Prelude.{
  ℕ, Bool, true, false, not, ◌&&◌, Option, none, some, List, [], ◌∷◌, ◌++◌, if◌then◌else◌,
}
use co_wq.Serial.{
  SerialQueue, serial_queue_init, serial_collect_waiters, Executor, serial_post_pending,
}
use co_wq.EpollReactor.{Epoll, EpollReactor, add_fd, remove_fd}

-- The calls on a descriptor that end its use: `os::shutdown(fd, SHUT_WR)` and `os::close_fd(fd)`.
pub data SysCall : Type 0 where
  shutdown close_os : ℕ → SysCall

-- `fd` is `none` for `os::invalid_fd()`. `syscalls` is the log of those calls.
pub record SocketCore (K : Type 0) : Type 0 where
  pub fd : Option ℕ
  pub closed : Bool
  pub send_q : SerialQueue
  pub recv_q : SerialQueue
  pub exec : Executor
  pub reactor : EpollReactor K
  pub rx_eof : Bool
  pub tx_shutdown : Bool
  pub syscalls : List SysCall

module _ {K : Type 0} (os : Epoll K) where
  -- The constructors, with the descriptor that was created or is taken over: none makes them throw.
  unfoldable pub init_fd : Option ℕ → Executor → EpollReactor K → Option (SocketCore K)
  init_fd none exec reactor = none
  init_fd (some fd) exec reactor = some (record {
    fd = some fd;
    closed = false;
    send_q = serial_queue_init;
    recv_q = serial_queue_init;
    exec = exec;
    reactor = add_fd os fd reactor;
    rx_eof = false;
    tx_shutdown = false;
    syscalls = [];
  })

  -- The two queues after `serial_collect_waiters(_io_serial_lock, { &_send_q, &_recv_q }, pending)`.
  abbrev pub put_queues : List SerialQueue → SocketCore K → SocketCore K
  put_queues (s ∷ r ∷ []) c = record c { send_q = s; recv_q = r }
  put_queues _ c = c

  abbrev pub close_valid : ℕ → SocketCore K → SocketCore K
  close_valid fd c =
      let (queues, pending) = serial_collect_waiters (c.send_q ∷ c.recv_q ∷ []) [] in
      put_queues queues (record c {
        fd = none;
        closed = true;
        reactor = remove_fd os fd c.reactor;
        exec = serial_post_pending pending c.exec;
        syscalls = c.syscalls ++ close_os fd ∷ [];
      })

  abbrev pub close_of : Option ℕ → SocketCore K → SocketCore K
  close_of none c = c
  close_of (some fd) c = close_valid fd c

  unfoldable pub close_fd : SocketCore K → SocketCore K
  close_fd c = close_of c.fd c

  unfoldable pub close : SocketCore K → SocketCore K
  close c = let closed = close_fd c in record closed { rx_eof = false; tx_shutdown = false }

-- `shutdown_tx`, and the marks that the awaiters set.
abbrev pub shutdown_of : {K : Type 0} → Option ℕ → SocketCore K → SocketCore K
shutdown_of none c = c
shutdown_of (some fd) c =
    if not c.tx_shutdown
    then record c { tx_shutdown = true; syscalls = c.syscalls ++ shutdown fd ∷ [] }
    else c

unfoldable pub shutdown_tx : {K : Type 0} → SocketCore K → SocketCore K
shutdown_tx c = shutdown_of c.fd c

unfoldable pub mark_rx_eof : {K : Type 0} → SocketCore K → SocketCore K
mark_rx_eof c = record c { rx_eof = true }

unfoldable pub mark_tx_shutdown : {K : Type 0} → SocketCore K → SocketCore K
mark_tx_shutdown c = record c { tx_shutdown = true }
