-- ===== src/StreamSocket/Send/Examples.antt =====
-- Writes at concrete inputs: the kernel takes so many bytes in a call, as its room says.
use co_wq.Prelude.{
  ℕ, zero, suc, ◌≤◌, ◌≡◌, refl, sym, true, false, List, [], ◌∷◌, ◌++◌, append-nil, length, take,
  leb, if◌then◌else◌, arith,
}
use co_wq.Serial.{
  Drain, lock_acquired, drive, resume, lock_acquired_cb, drive_cb, serial_release, release_to,
}
use co_wq.Serial.Events.{Life, acquired, event}
use co_wq.StreamSocket.{eagain, Sent, got, took, not_took, Kernel}
use co_wq.StreamSocket.Send.{
  SendAwaiter, concat, send_vec_awaiter, send_attempt_once, writev_rounds, after_writev, not_sent,
  advance_iov,
}
use co_wq.StreamSocket.Send.Delivery.{number_of, TakesStream, Ended}
use co_wq.StreamSocket.Send.Ending.{of_vector, send_attempt_once-Delivers}
use co_wq.StreamSocket.Send.Vector.{length-concat}

-- What was written, and the room that each of the next calls finds.
abbrev Stream : Type 0
Stream = List ℕ × List ℕ

abbrev room_for : List ℕ → ℕ → ℕ
room_for bs room = if leb room (length bs) then room else length bs

abbrev write : List ℕ → List ℕ × List ℕ → Sent × (List ℕ × List ℕ)
write bs (w, []) = (not_took eagain, (w, []))
write bs (w, zero ∷ rooms) = (not_took eagain, (w, rooms))
write bs (w, suc room ∷ rooms) = let n = room_for bs (suc room) in (took n, (w ++ take n bs, rooms))

abbrev kernel : Kernel Stream
kernel = record { recv = λ n k. (got [], k); send = write; writev = λ iov k. write (concat iov) k }

room_for-fits : (bs : List ℕ) (room : ℕ) → room_for bs room ≤ length bs
room_for-fits bs room = ground arith

write-at_most : (bs : List ℕ) (k : Stream) → number_of (write bs k).0 ≤ length bs
write-at_most bs (w, []) = omega arith
write-at_most bs (w, zero ∷ rooms) = omega arith
write-at_most bs (w, suc room ∷ rooms) = room_for-fits bs (suc room)

write-in_order :
    (bs : List ℕ) (k : Stream) → (write bs k).1.0 ≡ k.0 ++ take (number_of (write bs k).0) bs
write-in_order bs (w, []) = sym (append-nil w)
write-in_order bs (w, zero ∷ rooms) = sym (append-nil w)
write-in_order bs (w, suc room ∷ rooms) = refl

kernel-TakesStream : TakesStream kernel
kernel-TakesStream = record {
  written = λ k. k.0;
  at_most = write-at_most;
  in_order = write-in_order;
  at_most_v = λ iov k. omega (arith, write-at_most (concat iov) k, length-concat iov);
  in_order_v = λ iov k. write-in_order (concat iov) k;
}

abbrev two_parts : List (List ℕ)
two_parts = (1 ∷ 2 ∷ []) ∷ (3 ∷ []) ∷ []

-- A `send_all` of the two parts that has its turn. There is room for one byte, then none, then for more.
abbrev writer : Drain (SendAwaiter Stream)
writer = record {
  work = send_vec_awaiter two_parts true false ([], 1 ∷ 0 ∷ 5 ∷ []);
  func = lock_acquired;
  waits = [];
  resumes = 0;
  slot = record { q = record { locked = true; waiters = [] }; posted = 1 ∷ [] };
}

abbrev waiting_writer : Drain (SendAwaiter Stream)
waiting_writer = record writer {
  work = record (send_vec_awaiter two_parts true false (1 ∷ [], 5 ∷ [])) {
    sent = 1;
    vec = (2 ∷ []) ∷ (3 ∷ []) ∷ [];
  };
  func = drive;
  waits = true ∷ [];
}

abbrev wrote_all : Drain (SendAwaiter Stream)
wrote_all = record waiting_writer {
  work = record (send_vec_awaiter two_parts true false (1 ∷ 2 ∷ 3 ∷ [], [])) { sent = 3; vec = [] };
  func = resume;
  resumes = 1;
  slot = record { q = record { locked = false; waiters = [] }; posted = 1 ∷ [] };
}

writer-Life : Life (send_attempt_once kernel) writer 1 wrote_all
unfolding lock_acquired_cb drive_cb send_attempt_once writev_rounds after_writev not_sent
    advance_iov send_vec_awaiter serial_release release_to
writer-Life = event {d = waiting_writer} 1 (acquired 1 refl) refl refl

send_attempt_once-Delivers_example :
    Ended kernel kernel-TakesStream true (1 ∷ 2 ∷ 3 ∷ []) [] wrote_all.work
unfolding kernel-TakesStream
send_attempt_once-Delivers_example =
    send_attempt_once-Delivers kernel kernel-TakesStream true (1 ∷ 2 ∷ 3 ∷ []) ([], 1 ∷ 0 ∷ 5 ∷ [])
      writer wrote_all 1 (of_vector two_parts false ([], 1 ∷ 0 ∷ 5 ∷ [])) writer-Life
