-- ===== src/Lib.antt =====
-- co_wq: C++20 coroutines on a work queue, with timers, semaphores, sockets and WebSockets.
--
-- A coroutine that waits is a node. A synchronisation object (sync/semaphore.hpp, sync/timer.hpp) or
-- the queue of a socket (io/io_serial.hpp) keeps the node until the coroutine may go on, then posts it to
-- an executor (task/workqueue.hpp), which calls the node's `func`. On top of the sockets
-- net/websocket.hpp reads and writes frames and messages. This library models the parts below, each as
-- functions on a state that stands for the C++ object, with the program's names.
--
-- - Prelude: the shared names. Tests has the Boolean comparisons, Lists lists with native lengths, and
--   Bits the laws of shifts, masks and exclusive or.
-- - Websocket (net/websocket.hpp). Socket is the interface to a stream socket: `recv` returns a
--   number of bytes of the peer's or an error, `send_all` tells whether it failed, and the calls run in a small
--   state monad with errors. A stream that delivers bytes in pieces is a law there, with a loop-back
--   socket as an instance. Frame has `read_frame` and `send_frame`, Message has `read_message` and the
--   other `send_` functions. Header has the helpers that read header values, Handshake the callbacks of
--   the HTTP parser llhttp, and Handshake/Accept has `accept`. The parser and the digest of the
--   key are parameters. The children prove what these do.
-- - Semaphore (sync/semaphore.hpp). The counter, the waiters and the executor's run queue are one
--   record. Awaiter models `SemReqTimeoutAwaiter`, whose two callbacks race for `armed`.
-- - Timer (sync/timer.hpp). The pairing heap of `Timer_check_queue` is a binary tree, and a check
--   hands the expired nodes to the executor.
-- - Serial (io/io_serial.hpp). `serial_queue` with the awaiters that hold and await its slot, and
--   the two-phase loop over any `attempt_once`, which is a parameter with a law.
-- - WorkQueue (task/usrlist.hpp, task/workqueue.hpp). The `list_head` links of all nodes are one memory
--   by address, with the list operations on it, and the run queue is a head in that memory. The other
--   parts take an intrusive list for the list of names that it represents.
-- - CallbackQueue (io/callback_wq.hpp). The queue that runs the callbacks of one socket in order: its
--   pending list, the runner and the drains, one step at a time, so that threads may interleave.
-- - EpollReactor (io/epoll_reactor.hpp). The table of descriptors with their waiters and interests, the
--   rounds of the loop, and what is handed to the executor. `epoll_ctl` and the results of
--   `epoll_wait` are parameters. Threads has the calls of several threads, where those of others may come
--   between the two parts of `remove_fd`.
-- - StreamSocket (net/stream_socket_base.hpp). The awaiters of the sockets, as work for the two-phase loop
--   of Serial. The system calls are parameters. Recv and Send are those of streams, Datagram those of
--   datagrams. Connect has `connect_awaiter`, and Core the socket itself with its closing and shutdowns.
-- - FileIo (io/file_io.hpp, the part for Linux). `file_handle` and its two awaiters, likewise.
-- - Notify (sync/inotify.hpp). `Notify` over the run queue of its executor. Awaiter models
--   `NotifyReqTimeoutAwaiter`, whose two callbacks race for `armed`.
-- - Dns (net/dns_resolver.cpp). `resolve_core`, with `getaddrinfo` as a parameter, and in Async the
--   queue of jobs and the threads that work on it.
-- - Tls (net/tls.hpp). The awaiters of `basic_tls_socket`, with OpenSSL as a parameter. Handshake has
--   `handshake_awaiter`, and Socket the closing over the socket of the transport.
-- - Task (task/worker.hpp). A detached coroutine on its executor, from `post_to` to the end of its frame.
--   Awaiting (task/task.hpp) follows the control as tasks await each other.
-- - Listener (net/stream_listener_base.hpp). A listening socket and `accept_awaiter`.
-- - WhenAll (task/when_all.hpp). The counter of `WhenAllAwaiter` and the completions of its children.
--
-- Bytes and words are natural numbers, with the masks and shifts of the source written out. Times are
-- numbers of one clock. Outside WorkQueue a node is named by its address, an
-- intrusive list is a list of names, and a `std::optional` that holds a value is `some`. The lock of a queue makes
-- what is done under one hold of it one step, so that interleavings are sequences of steps. An operation
-- that goes on behind its lock has a step for each part where other threads may come between (EpollReactor/Threads,
-- CallbackQueue, Dns/Async); for a socket that is closed the parts of `remove_fd` follow each other.
--
-- Loops with no structural bound run on fuel. `recv_exact` gets one round for each byte wanted and one
-- more, because a round that receives nothing ends it. `message_loop` gets a number of rounds, one
-- for each frame. The loop of `tim_chk_cb` gets the number of nodes of the heap, because each
-- round takes one off. The two-phase loop gets a number of rounds from the caller.
-- The loop of `accept` gets two rounds more than the largest request has bytes, and that of
-- `parse_header_csv` the number of bytes of the value.
--
-- A write of a StreamSocket or of a file gets a round for each byte that is left, since a round takes one at
-- least, and one round more for an iovec.
--
-- Not modelled: the coroutine frames, which are the compiler's; the Windows parts (the IOCP reactor, the files);
-- io/usb_device.hpp; the wrappers of system calls and of OpenSSL's contexts, with the sockets of each
-- protocol that only choose them; logging; the vendored io/wepoll; and the example programs under test.
mod Prelude
pub mod Websocket
pub mod Semaphore
pub mod Timer
pub mod Serial
pub mod WorkQueue
pub mod WhenAll
pub mod CallbackQueue
pub mod EpollReactor
pub mod StreamSocket
pub mod FileIo
pub mod Notify
pub mod Dns
pub mod Tls
pub mod Task
pub mod Listener
