-- ===== src/Tls/Examples.antt =====
-- A TLS socket at concrete inputs: a stream that has two bytes now and a third one later, a handshake that waits once,
-- and a socket that is shut down and closed.
use co_wq.Prelude.{
  ℕ, zero, suc, ◌≤◌, ◌≡◌, refl, true, false, List, [], ◌∷◌, ◌++◌, length, Option, none, some, arith,
}
use co_wq.Serial.{Executor, Drain, lock_acquired, drive, resume}
use co_wq.EpollReactor.{succeeded, Epoll, EpollReactor}
use co_wq.StreamSocket.Core.{SocketCore}
use co_wq.Tls.{
  size_of, Ssl, SslRead, stored, not_read, wrote, done, not_done, Failure, RecvAwaiter,
  recv_awaiter,
}
use co_wq.Tls.Receiving.{Decrypts, bytes_of}
use co_wq.Tls.Handshake.{
  HandshakeAwaiter, handshake, Driving, suspended, called_again, Stage, drive-Stage,
}

abbrev want_read : Failure
want_read = record { ssl_err = 2; errno = 0 }

abbrev invalid_number : Failure
invalid_number = record { ssl_err = 1; errno = 0 }

-- What later calls find: a byte, or nothing yet. A handshake fails as long as nothing has come.
abbrev read_some : ℕ → List (Option ℕ) → SslRead × List (Option ℕ)
read_some n [] = (stored [], [])
read_some n (none ∷ later) = (not_read want_read, later)
read_some zero (some b ∷ later) = (stored [], some b ∷ later)
read_some (suc n) (some b ∷ later) = (stored (b ∷ []), later)

abbrev read : Option ℕ → List (Option ℕ) → SslRead × List (Option ℕ)
read none k = (not_read invalid_number, k)
read (some n) k = read_some n k

abbrev ssl : Ssl (List (Option ℕ))
ssl = record {
  ssl_read = read;
  ssl_write = λ bs n k. (wrote 0, k);
  ssl_do_handshake = λ k. elim k [
    | [] ↦ (done, [])
    | o ∷ later ↦ elim o [ none ↦ (not_done want_read, later) | some b ↦ (done, some b ∷ later) ]
  ];
}

abbrev to_read : List (Option ℕ) → List ℕ
to_read [] = []
to_read (none ∷ later) = to_read later
to_read (some b ∷ later) = b ∷ to_read later

some-in_order :
    (n : ℕ) (k : List (Option ℕ))
    → to_read k ≡ bytes_of (read_some n k).0 ++ to_read (read_some n k).1
some-in_order n [] = refl
some-in_order n (none ∷ later) = refl
some-in_order zero (some b ∷ later) = refl
some-in_order (suc n) (some b ∷ later) = refl

some-at_most : (n : ℕ) (k : List (Option ℕ)) → length (bytes_of (read_some n k).0) ≤ n
some-at_most n [] = omega arith
some-at_most n (none ∷ later) = omega arith
some-at_most zero (some b ∷ later) = omega arith
some-at_most (suc n) (some b ∷ later) = omega arith

read-in_order :
    (n : Option ℕ) (k : List (Option ℕ)) → to_read k ≡ bytes_of (read n k).0 ++ to_read (read n k).1
read-in_order none k = refl
read-in_order (some n) k = some-in_order n k

read-at_most : (n : Option ℕ) (k : List (Option ℕ)) → length (bytes_of (read n k).0) ≤ size_of n
read-at_most none k = omega arith
read-at_most (some n) k = some-at_most n k

ssl-Decrypts : Decrypts ssl
ssl-Decrypts = record { pending = to_read; in_order = read-in_order; at_most = read-at_most }

abbrev later_bytes : List (Option ℕ)
later_bytes = some 7 ∷ none ∷ some 8 ∷ some 9 ∷ []

-- A `recv_all` of two bytes that has its turn, waits after the first byte, and is over after the event.
abbrev reader : Drain (RecvAwaiter (List (Option ℕ)))
reader = record {
  work = recv_awaiter true 2 false later_bytes;
  func = lock_acquired;
  waits = [];
  resumes = 0;
  slot = record { q = record { locked = true; waiters = [] }; posted = 1 ∷ [] };
}

abbrev waiting_reader : Drain (RecvAwaiter (List (Option ℕ)))
waiting_reader = record reader {
  work = record (recv_awaiter true 2 false later_bytes) {
    buf = 7 ∷ [];
    wait_mask = 1;
    ssl = some 8 ∷ some 9 ∷ [];
  };
  func = drive;
  waits = true ∷ [];
}

abbrev read_both : Drain (RecvAwaiter (List (Option ℕ)))
read_both = record waiting_reader {
  work = record (recv_awaiter true 2 false later_bytes) {
    buf = 7 ∷ 8 ∷ [];
    wait_mask = 1;
    ssl = some 9 ∷ [];
  };
  func = resume;
  resumes = 1;
  slot = record { q = record { locked = false; waiters = [] }; posted = 1 ∷ [] };
}

waiting_handshake :
    Driving ssl
      (none ∷ [])
      1
      (co_wq.Tls.Handshake.drive ssl (co_wq.Tls.Handshake.drive ssl (handshake false (none ∷ []))))
unfolding co_wq.Tls.Handshake.drive handshake
waiting_handshake = called_again suspended refl

drive-Stage_example :
    Stage ssl 1
      (co_wq.Tls.Handshake.drive ssl (co_wq.Tls.Handshake.drive ssl (handshake false (none ∷ []))))
drive-Stage_example = drive-Stage ssl (none ∷ []) 1 _ waiting_handshake

abbrev epoll : Epoll (Unit {0})
epoll = record { epoll_ctl = λ op fd ev k. (succeeded, k) }

abbrev no_work : Executor
no_work = record { queue = []; trigs = 0 }

abbrev no_waiters : EpollReactor (Unit {0})
no_waiters = record { fds = []; kernel = tt; resets = []; expired = []; posted = [] }

abbrev new_socket : SocketCore (Unit {0})
new_socket = record {
  fd = some 5;
  closed = false;
  send_q = record { locked = false; waiters = [] };
  recv_q = record { locked = false; waiters = [] };
  exec = no_work;
  reactor = co_wq.EpollReactor.add_fd epoll 5 no_waiters;
  rx_eof = false;
  tx_shutdown = false;
  syscalls = [];
}
