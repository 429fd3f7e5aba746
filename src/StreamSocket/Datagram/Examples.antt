-- ===== src/StreamSocket/Datagram/Examples.antt =====
-- Datagrams at concrete inputs: nothing has come at first, then a datagram of two bytes of which one fits.
use co_wq.Prelude.{ℕ, refl, true, false, Option, none, some, List, [], ◌∷◌, ◌++◌, take, length}
use co_wq.Serial.{Drain, lock_acquired, drive, resume, lock_acquired_cb, serial_release, release_to}
use co_wq.Serial.Events.{Life, acquired}
use co_wq.StreamSocket.{eagain, Received, got, not_got, Sent, took}
use co_wq.StreamSocket.Send.{concat}
use co_wq.StreamSocket.Datagram.{
  DatagramKernel, RecvfromAwaiter, recvfrom_awaiter, DatagramSendAwaiter, datagram_sendv,
  datagram_send_attempt_once,
}
use co_wq.StreamSocket.Datagram.Delivery.{Receives, KeepsDatagrams}

-- What the next calls find, nothing yet or a datagram with its sender, and what was sent.
record Net : Type 0 where
  later : List (Option (ℕ × List ℕ))
  sent : List (Option ℕ × List ℕ)

abbrev coming : List (Option (ℕ × List ℕ)) → List (ℕ × List ℕ)
coming [] = []
coming (none ∷ ds) = coming ds
coming (some d ∷ ds) = d ∷ coming ds

abbrev take_one :
    ℕ → List (Option (ℕ × List ℕ)) → (Received × Option ℕ) × List (Option (ℕ × List ℕ))
take_one len [] = ((not_got eagain, none), [])
take_one len (none ∷ ds) = ((not_got eagain, none), ds)
take_one len (some d ∷ ds) = ((got (take len d.1), some d.0), ds)

abbrev receive : ℕ → Net → (Received × Option ℕ) × Net
receive len k = let (r, ds) = take_one len k.later in (r, record k { later = ds })

abbrev give : Option ℕ → List ℕ → Net → Sent × Net
give to bs k = (took (length bs), record k { sent = k.sent ++ (to, bs) ∷ [] })

abbrev kernel : DatagramKernel ℕ Net
kernel = record {
  recvfrom = receive;
  send = λ bs. give none bs;
  sendto = λ bs d. give (some d) bs;
  writev = λ iov. give none (concat iov);
  sendto_vec = λ iov d. give (some d) (concat iov);
}

receives :
    (len : ℕ) (ds : List (Option (ℕ × List ℕ))) (sent : List (Option ℕ × List ℕ))
    → Receives
        (λ (k : Net). coming k.later)
        len
        (coming ds)
        (take_one len ds).0.0
        (take_one len ds).0.1
        (record { later = (take_one len ds).1; sent = sent })
receives len [] sent = refl
receives len (none ∷ ds) sent = refl
receives len (some d ∷ ds) sent = (d, refl, refl, refl)

kernel-KeepsDatagrams : KeepsDatagrams kernel
kernel-KeepsDatagrams = record {
  incoming = λ k. coming k.later;
  outgoing = λ k. k.sent;
  receives = λ len k. receives len k.later k.sent;
  sends = λ bs k. (refl, refl);
  sends_to = λ bs d k. (refl, refl);
  sends_v = λ iov k. (refl, refl);
  sends_to_v = λ iov d k. (refl, refl);
}

abbrev net : Net
net = record { later = none ∷ some (9, 1 ∷ 2 ∷ []) ∷ []; sent = [] }

abbrev receiver : Drain (RecvfromAwaiter ℕ Net)
receiver = record {
  work = recvfrom_awaiter 1 true eagain net;
  func = lock_acquired;
  waits = [];
  resumes = 0;
  slot = record { q = record { locked = true; waiters = [] }; posted = 1 ∷ [] };
}

abbrev waiting_receiver : Drain (RecvfromAwaiter ℕ Net)
waiting_receiver = record receiver {
  work = recvfrom_awaiter 1 true eagain (record net { later = some (9, 1 ∷ 2 ∷ []) ∷ [] });
  func = drive;
  waits = true ∷ [];
}

abbrev received : Drain (RecvfromAwaiter ℕ Net)
received = record waiting_receiver {
  work = record (recvfrom_awaiter 1 true eagain (record net { later = [] })) {
    buf = 1 ∷ [];
    nread = some 1;
    out_addr = some 9;
  };
  func = resume;
  resumes = 1;
  slot = record { q = record { locked = false; waiters = [] }; posted = 1 ∷ [] };
}

abbrev two_parts : List (List ℕ)
two_parts = (1 ∷ 2 ∷ []) ∷ (3 ∷ []) ∷ []

abbrev sender : Drain (DatagramSendAwaiter ℕ Net)
sender = record {
  work = datagram_sendv two_parts (some 9) eagain net;
  func = lock_acquired;
  waits = [];
  resumes = 0;
  slot = record { q = record { locked = true; waiters = [] }; posted = 1 ∷ [] };
}

abbrev sent_one : Drain (DatagramSendAwaiter ℕ Net)
sent_one = record sender {
  work =
      record (datagram_sendv two_parts (some 9) eagain
        (record net { sent = (some 9, 1 ∷ 2 ∷ 3 ∷ []) ∷ [] })) { nsent = some 3 };
  func = resume;
  resumes = 1;
  slot = record { q = record { locked = false; waiters = [] }; posted = 1 ∷ [] };
}

sender-Life : Life (datagram_send_attempt_once kernel) sender 0 sent_one
unfolding lock_acquired_cb datagram_send_attempt_once datagram_sendv serial_release release_to
sender-Life = acquired 1 refl
