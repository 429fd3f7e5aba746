-- ===== src/StreamSocket/Datagram/Delivery.antt =====
-- A datagram is moved whole, or not at all.
use co_wq.Prelude.{
  ℕ, ◌≡◌, refl, ap, subst, inl, inr, Bool, true, false, Option, none, some, List, [], ◌∷◌, ◌++◌,
  take, length, if◌then◌else◌, Bool-cases,
}
use co_wq.Serial.{Drain}
use co_wq.Serial.Events.{Life}
use co_wq.Serial.Work.{After, Stands, Life-Stands}
use co_wq.StreamSocket.{
  Errno, ecanceled, Received, got, not_got, Sent, took, not_took, is_again, Return, count,
  minus_one,
}
use co_wq.StreamSocket.Send.{concat}
use co_wq.StreamSocket.Datagram.{
  DatagramKernel, RecvfromAwaiter, recvfrom_await_resume, DatagramSendAwaiter, datagram_send,
  datagram_sendv, on_datagram_sent, send_buffer, send_vector, datagram_send_attempt_once,
  datagram_send_await_resume,
}

module _ {A K : Type 0} where
  -- What a receive leaves of the datagrams that are still to come, each with its sender: it takes the first
  -- one, of which it stores what fits, or fails and takes none.
  abbrev pub Receives :
      (K → List (A × List ℕ)) → ℕ → List (A × List ℕ) → Received → Option A → K → Type 0
  Receives incoming len before (got bs) from k =
      (d : A × List ℕ) × (before ≡ d ∷ incoming k) × (bs ≡ take len d.1) × (from ≡ some d.0)
  Receives incoming len before (not_got e) from k = before ≡ incoming k

  -- What a send leaves of the datagrams that were sent, each with its destination, if it has one.
  abbrev pub Sends :
      (K → List (Option A × List ℕ))
      → List (Option A × List ℕ)
      → Option A
      → List ℕ
      → Sent
      → K
      → Type 0
  Sends outgoing before to bs (took n) k = (n ≡ length bs) × (outgoing k ≡ before ++ (to, bs) ∷ [])
  Sends outgoing before to bs (not_took e) k = outgoing k ≡ before

  -- A kernel that keeps datagrams apart.
  pub record KeepsDatagrams (os : DatagramKernel A K) : Type 0 where
    pub incoming : K → List (A × List ℕ)
    pub outgoing : K → List (Option A × List ℕ)
    pub receives :
        (len : ℕ) (k : K)
        → (let ((r, from), k') = os.recvfrom len k in Receives incoming len (incoming k) r from k')
    pub sends :
        (bs : List ℕ) (k : K)
        → (let (r, k') = os.send bs k in Sends outgoing (outgoing k) none bs r k')
    pub sends_to :
        (bs : List ℕ) (d : A) (k : K)
        → (let (r, k') = os.sendto bs d k in Sends outgoing (outgoing k) (some d) bs r k')
    pub sends_v :
        (iov : List (List ℕ)) (k : K)
        → (let (r, k') = os.writev iov k in Sends outgoing (outgoing k) none (concat iov) r k')
    pub sends_to_v :
        (iov : List (List ℕ)) (d : A) (k : K)
        → (let (r, k') = os.sendto_vec iov d k in
            Sends outgoing (outgoing k) (some d) (concat iov) r k')

-- What the awaiters return where the call failed.
abbrev failure : Bool → Errno → Return
failure closed e = if closed then minus_one ecanceled else minus_one e

module _ {A K : Type 0} (os : DatagramKernel A K) (net : KeepsDatagrams os) where
  -- A receive of at most `len` bytes, with `before` still to come at its start.
  pub record Awaits (len : ℕ) (wants : Bool) (before : List (A × List ℕ)) (a : RecvfromAwaiter A K)
      : Type 0 where
    pub same_len : a.len ≡ len
    pub same_wants : a.wants_addr ≡ wants
    pub untouched : net.incoming a.kernel ≡ before

  pub data Took (len : ℕ) (wants : Bool) (before : List (A × List ℕ)) (a : RecvfromAwaiter A K)
      : Type 0 where
    one :
        (d : A × List ℕ)
        → before ≡ d ∷ net.incoming a.kernel
        → a.buf ≡ take len d.1
        → a.out_addr ≡ (if wants then some d.0 else none)
        → ((closed : Bool) → recvfrom_await_resume closed a ≡ count (length a.buf))
        → Took len wants before a
    failed :
        (e : Errno)
        → is_again e ≡ false
        → before ≡ net.incoming a.kernel
        → ((closed : Bool) → recvfrom_await_resume closed a ≡ failure closed e)
        → Took len wants before a

-- The ways to start a send of some bytes, to a destination or the connected peer.
pub data Sending {A K : Type 0} (to : Option A) (k : K)
    : List ℕ → DatagramSendAwaiter A K → Type 0 where
  of_buffer : (bs : List ℕ) (err : Errno) → Sending to k bs (datagram_send bs to err k)
  of_vector :
      (iov : List (List ℕ)) (err : Errno) → Sending to k (concat iov) (datagram_sendv iov to err k)

module _ {A K : Type 0} (os : DatagramKernel A K) (net : KeepsDatagrams os) where
  -- A send of `bs` to `to`, with `before` sent by the socket at its start.
  pub record Holds (to : Option A) (bs : List ℕ) (before : List (Option A × List ℕ))
      (a : DatagramSendAwaiter A K) : Type 0 where
    pub same_dest : a.dest ≡ to
    pub same_bytes : (if a.use_vec then concat a.vec else a.buf) ≡ bs
    pub untouched : net.outgoing a.kernel ≡ before

  pub data Gave (to : Option A) (bs : List ℕ) (before : List (Option A × List ℕ))
      (a : DatagramSendAwaiter A K) : Type 0 where
    gave_one :
        net.outgoing a.kernel ≡ before ++ (to, bs) ∷ []
        → ((closed : Bool) → datagram_send_await_resume closed a ≡ count (length bs))
        → Gave to bs before a
    gave_none :
        (e : Errno)
        → is_again e ≡ false
        → net.outgoing a.kernel ≡ before
        → ((closed : Bool) → datagram_send_await_resume closed a ≡ failure closed e)
        → Gave to bs before a

  module _ (to : Option A) (bs : List ℕ) (before : List (Option A × List ℕ)) where
    on_sent-After :
        (a : DatagramSendAwaiter A K) (r : Sent) (k : K)
        → Holds to bs before a
        → Sends net.outgoing before to bs r k
        → After
            (Holds to bs before)
            (Gave to bs before)
            (on_datagram_sent (record a { kernel = k }) r)
    unfolding datagram_send_await_resume
    on_sent-After a (took n) k h x = gave_one x.1 (λ closed. ap count x.0)
    on_sent-After a (not_took e) k h x = elim (Bool-cases (is_again e)) [
      | inl again ↦
          rw again (record { same_dest = h.same_dest; same_bytes = h.same_bytes; untouched = x })
      | inr fails ↦ rw fails (gave_none e fails x (λ closed. refl))
    ]

    buffer-Sends :
        (to' : Option A) (b : List ℕ) (k : K)
        → (let (r, k') = send_buffer os to' b k in Sends net.outgoing (net.outgoing k) to' b r k')
    buffer-Sends none b k = net.sends b k
    buffer-Sends (some d) b k = net.sends_to b d k

    vector-Sends :
        (to' : Option A) (iov : List (List ℕ)) (k : K)
        → (let (r, k') = send_vector os to' iov k in
            Sends net.outgoing (net.outgoing k) to' (concat iov) r k')
    vector-Sends none iov k = net.sends_v iov k
    vector-Sends (some d) iov k = net.sends_to_v iov d k

    called-Sends :
        (b : Bool) (a : DatagramSendAwaiter A K)
        → (let (r, k) =
              if b
              then send_vector os a.dest a.vec a.kernel
              else send_buffer os a.dest a.buf a.kernel in
            Sends net.outgoing
              (net.outgoing a.kernel)
              a.dest
              (if b then concat a.vec else a.buf)
              r
              k)
    called-Sends true a = vector-Sends a.dest a.vec a.kernel
    called-Sends false a = buffer-Sends a.dest a.buf a.kernel

    send-After :
        (a : DatagramSendAwaiter A K)
        → Holds to bs before a
        → After (Holds to bs before) (Gave to bs before) (datagram_send_attempt_once os a)
    unfolding datagram_send_attempt_once
    send-After a h =
        let x =
          if a.use_vec
          then send_vector os a.dest a.vec a.kernel
          else send_buffer os a.dest a.buf a.kernel in
        on_sent-After a x.0 x.1 h (
          subst (λ b. Sends net.outgoing b to bs x.0 x.1) h.untouched
            (subst (λ b. Sends net.outgoing (net.outgoing a.kernel) to b x.0 x.1) h.same_bytes
              (subst
                (λ o.
                  Sends net.outgoing (net.outgoing a.kernel) o
                    (if a.use_vec then concat a.vec else a.buf) x.0 x.1)
                h.same_dest (called-Sends a.use_vec a))))

  Sending-Holds :
      (to : Option A) (k : K) (bs : List ℕ) (a : DatagramSendAwaiter A K)
      → Sending to k bs a
      → Holds to bs (net.outgoing k) a
  unfolding datagram_send datagram_sendv
  Sending-Holds to k _ _ (of_buffer b err) = record {
    same_dest = refl;
    same_bytes = refl;
    untouched = refl;
  }
  Sending-Holds to k _ _ (of_vector iov err) = record {
    same_dest = refl;
    same_bytes = refl;
    untouched = refl;
  }

  -- A send that got its turn, from a buffer or an `iovec`, with a destination or to the connected peer, after any
  -- number of events. While it waits it has sent nothing. When it is over it has sent exactly one datagram, with all
  -- the bytes and the destination, and returns their number; or a call has failed, nothing was sent, and it
  -- returns -1, with `ECANCELED` if the socket has been closed.
  pub datagram_send_attempt_once-Delivers :
      (to : Option A) (bs : List ℕ) (k : K) (d0 d : Drain (DatagramSendAwaiter A K)) (events : ℕ)
      → Sending to k bs d0.work
      → Life (datagram_send_attempt_once os) d0 events d
      → Stands (Holds to bs (net.outgoing k)) (Gave to bs (net.outgoing k)) d
  datagram_send_attempt_once-Delivers to bs k d0 d events s life =
      Life-Stands (datagram_send_attempt_once os) (Holds to bs (net.outgoing k))
        (Gave to bs (net.outgoing k)) (send-After to bs (net.outgoing k)) d0 d events
        (Sending-Holds to k bs d0.work s) life
