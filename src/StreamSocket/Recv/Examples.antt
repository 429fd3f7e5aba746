-- ===== src/StreamSocket/Recv/Examples.antt =====
-- Reads at concrete inputs: a stream that has two bytes now and a third one later, and then is closed.
use co_wq.Prelude.{
  ℕ, ◌≤◌, ◌<◌, ◌≡◌, refl, true, false, List, [], ◌∷◌, ◌++◌, length, arith, zero, suc, Option, none,
  some,
}
use co_wq.Serial.{
  Drain, lock_acquired, drive, resume, lock_acquired_cb, drive_cb, serial_release, release_to,
}
use co_wq.Serial.Draining.{Ends}
use co_wq.Serial.Events.{Life, acquired, event}
use co_wq.StreamSocket.{eagain, Received, got, not_got, Kernel, took}
use co_wq.StreamSocket.Recv.{RecvAwaiter, recv_awaiter, recv_attempt_once, on_received}
use co_wq.StreamSocket.Recv.Delivery.{ReadsStream, bytes_of, Ended, recv_attempt_once-Delivers}
use co_wq.StreamSocket.Recv.Ending.{recv_attempt_once-Ends}

-- What later calls find: a byte, or nothing yet, and the end of the stream when no more is to come.
abbrev read : ℕ → List (Option ℕ) → Received × List (Option ℕ)
read n [] = (got [], [])
read n (none ∷ later) = (not_got eagain, later)
read zero (some b ∷ later) = (got [], some b ∷ later)
read (suc n) (some b ∷ later) = (got (b ∷ []), later)

abbrev kernel : Kernel (List (Option ℕ))
kernel = record { recv = read; send = λ bs k. (took 0, k); writev = λ iov k. (took 0, k) }

abbrev to_read : List (Option ℕ) → List ℕ
to_read [] = []
to_read (none ∷ later) = to_read later
to_read (some b ∷ later) = b ∷ to_read later

read-in_order :
    (n : ℕ) (k : List (Option ℕ)) → to_read k ≡ bytes_of (read n k).0 ++ to_read (read n k).1
read-in_order n [] = refl
read-in_order n (none ∷ later) = refl
read-in_order zero (some b ∷ later) = refl
read-in_order (suc n) (some b ∷ later) = refl

read-at_end :
    (n : ℕ) (k : List (Option ℕ)) → 0 < n → (read n k).0 ≡ got [] → to_read (read n k).1 ≡ []
read-at_end n [] l e = refl
read-at_end n (none ∷ later) l e = cc
read-at_end zero (some b ∷ later) l e = absurd (omega arith)
read-at_end (suc n) (some b ∷ later) l e = cc

read-at_most : (n : ℕ) (k : List (Option ℕ)) → length (bytes_of (read n k).0) ≤ n
read-at_most n [] = omega arith
read-at_most n (none ∷ later) = omega arith
read-at_most zero (some b ∷ later) = omega arith
read-at_most (suc n) (some b ∷ later) = omega arith

kernel-ReadsStream : ReadsStream kernel
kernel-ReadsStream = record {
  pending = to_read;
  in_order = read-in_order;
  at_end = read-at_end;
  at_most = read-at_most;
}

abbrev later_bytes : List (Option ℕ)
later_bytes = some 7 ∷ none ∷ some 8 ∷ some 9 ∷ []

-- A `recv_all` of two bytes that has its turn.
abbrev reader : Drain (RecvAwaiter (List (Option ℕ)))
reader = record {
  work = recv_awaiter true 2 false later_bytes;
  func = lock_acquired;
  waits = [];
  resumes = 0;
  slot = record { q = record { locked = true; waiters = [] }; posted = 1 ∷ [] };
}

-- It waits after the first byte, and is over after the event.
abbrev waiting_reader : Drain (RecvAwaiter (List (Option ℕ)))
waiting_reader = record reader {
  work = record (recv_awaiter true 2 false later_bytes) {
    buf = 7 ∷ [];
    kernel = some 8 ∷ some 9 ∷ [];
  };
  func = drive;
  waits = true ∷ [];
}

abbrev read_both : Drain (RecvAwaiter (List (Option ℕ)))
read_both = record waiting_reader {
  work = record (recv_awaiter true 2 false later_bytes) { buf = 7 ∷ 8 ∷ []; kernel = some 9 ∷ [] };
  func = resume;
  resumes = 1;
  slot = record { q = record { locked = false; waiters = [] }; posted = 1 ∷ [] };
}

reader-Life : Life (recv_attempt_once kernel) reader 1 read_both
unfolding lock_acquired_cb drive_cb recv_attempt_once on_received recv_awaiter serial_release
    release_to
reader-Life = event {d = waiting_reader} 3 (acquired 3 refl) refl refl

recv_attempt_once-Delivers_example :
    Ended kernel kernel-ReadsStream true 2 (to_read later_bytes) read_both.work
unfolding kernel-ReadsStream
recv_attempt_once-Delivers_example =
    recv_attempt_once-Delivers kernel kernel-ReadsStream true 2 false later_bytes reader read_both 1
      refl reader-Life

recv_attempt_once-Ends_example :
    Ends true reader (lock_acquired_cb (recv_attempt_once kernel) 3 reader)
    × Ends false reader (drive_cb (recv_attempt_once kernel) 3 reader)
unfolding recv_awaiter
recv_attempt_once-Ends_example = recv_attempt_once-Ends kernel 3 reader (omega arith)
