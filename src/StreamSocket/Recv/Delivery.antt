-- ===== src/StreamSocket/Recv/Delivery.antt =====
-- What `recv` and `recv_all` deliver.
use co_wq.Prelude.{
  ℕ, ◌+◌, ◌-◌, ◌≤◌, ◌<◌, ◌≡◌, refl, sym, ap, subst, ◌∙◌, inl, inr, Bool, true, false, not, ◌&&◌,
  none, List, [], ◌∷◌, ◌++◌, append_assoc, leb, ltb, ◌==◌, if◌then◌else◌, length, length-append,
  Bool-cases, arith,
}
use co_wq.Serial.{progress, complete, Drain}
use co_wq.Serial.Events.{Life}
use co_wq.Serial.Work.{After, if-After, answer-After, Stands, Life-Stands}
use co_wq.StreamSocket.{Errno, Received, got, not_got, Kernel, is_again, count, minus_one}
use co_wq.StreamSocket.Recv.{
  RecvAwaiter, recv_awaiter, on_received, recv_attempt_once, return_of, recv_await_resume,
}

-- The bytes of a read, and none for an error.
abbrev pub bytes_of : Received → List ℕ
bytes_of (got bs) = bs
bytes_of (not_got e) = []

-- A kernel that reads a byte stream: `pending` is all that is still to be read from it, now or later. A read
-- stores at most what it was asked for, takes it off the front, and stores nothing only at the end.
pub record ReadsStream {K : Type 0} (os : Kernel K) : Type 0 where
  pub pending : K → List ℕ
  pub in_order : (n : ℕ) (k : K) → pending k ≡ bytes_of (os.recv n k).0 ++ pending (os.recv n k).1
  pub at_end : (n : ℕ) (k : K) → 0 < n → (os.recv n k).0 ≡ got [] → pending (os.recv n k).1 ≡ []
  pub at_most : (n : ℕ) (k : K) → length (bytes_of (os.recv n k).0) ≤ n

module _ {K : Type 0} (os : Kernel K) (stream : ReadsStream os) where
  -- What an awaiter has of a stream that had `sent` to read at the start: the front of it, which fits.
  pub record Partly (full : Bool) (len : ℕ) (sent : List ℕ) (a : RecvAwaiter K) : Type 0 where
    pub same_full : a.full ≡ full
    pub same_len : a.len ≡ len
    pub delivered : sent ≡ a.buf ++ stream.pending a.kernel
    pub fits : length a.buf ≤ len

  -- Why an operation may end: the buffer is full, or a byte has come where one is enough, or the peer has
  -- closed and all was delivered, or the last read of the kernel, which left it as it is, has failed, and that
  -- is returned if nothing had come.
  pub data Reason (full : Bool) (len : ℕ) (a : RecvAwaiter K) : Type 0 where
    filled : length a.buf ≡ len → recv_await_resume a ≡ count (length a.buf) → Reason full len a
    in_part :
        full ≡ false
        → 0 < length a.buf
        → recv_await_resume a ≡ count (length a.buf)
        → Reason full len a
    at_eof :
        a.rx_eof ≡ true
        → stream.pending a.kernel ≡ []
        → recv_await_resume a ≡ count (length a.buf)
        → Reason full len a
    by_error :
        (e : Errno) (n : ℕ) (k : K)
        → os.recv n k ≡ (not_got e, a.kernel)
        → is_again e ≡ false
        → recv_await_resume a ≡ (if length a.buf == 0 then minus_one e else count (length a.buf))
        → Reason full len a

  -- While the operation goes on, with no error noted, and when it is over.
  pub record Going (full : Bool) (len : ℕ) (sent : List ℕ) (a : RecvAwaiter K) : Type 0 where
    pub partly : Partly full len sent a
    pub clean : a.err ≡ none

  pub record Ended (full : Bool) (len : ℕ) (sent : List ℕ) (a : RecvAwaiter K) : Type 0 where
    pub partly : Partly full len sent a
    pub reason : Reason full len a

  module _ (full : Bool) (len : ℕ) (sent : List ℕ) where
    -- A byte at least has come: `a` holds it already.
    on_got :
        (a : RecvAwaiter K)
        → Going full len sent a
        → 0 < length a.buf
        → After (Going full len sent) (Ended full len sent) (
          if not a.full then complete else if length a.buf == a.len then complete else progress,
          a,
        )
    unfolding recv_await_resume
    on_got a g some_came =
        let value = ap (λ e. return_of e (length a.buf)) g.clean in
        answer-After (Going full len sent) (Ended full len sent) (not a.full) _ _ a
          (λ partial. record {
            partly = g.partly;
            reason = in_part (ground (arith, partial, g.partly.same_full)) some_came value;
          })
          (λ whole.
            answer-After (Going full len sent) (Ended full len sent) (length a.buf == a.len) _ _ a
              (λ all. record {
                partly = g.partly;
                reason = filled (ground (arith, all, g.partly.same_len)) value;
              })
              (λ more. g))

    recv_value : (a : RecvAwaiter K) → a.err ≡ none → recv_await_resume a ≡ count (length a.buf)
    unfolding recv_await_resume
    recv_value a e = ap (λ e. return_of e (length a.buf)) e

    on_error :
        (a : RecvAwaiter K) (e : Errno) (n : ℕ) (k0 : K)
        → os.recv n k0 ≡ (not_got e, a.kernel)
        → Going full len sent a
        → After (Going full len sent) (Ended full len sent) (on_received os a (not_got e))
    unfolding on_received recv_await_resume
    on_error a e n k0 last g =
        let value = ap (λ e. return_of e (length a.buf)) g.clean in
        if-After (Going full len sent) (Ended full len sent) (is_again e) _ _
          (λ again.
            answer-After (Going full len sent) (Ended full len sent)
              (not a.full && ltb 0 (length a.buf)) _ _ a
              (λ partial. record {
                partly = g.partly;
                reason =
                    in_part (ground (arith, partial, g.partly.same_full)) (ground (arith, partial))
                      value;
              })
              (λ wait. g))
          (λ fails. elim (Bool-cases (length a.buf == 0)) [
            | inl nothing ↦ rw nothing (record {
              partly = record {
                same_full = g.partly.same_full;
                same_len = g.partly.same_len;
                delivered = g.partly.delivered;
                fits = g.partly.fits;
              };
              reason = by_error e n k0 last fails (rw nothing);
            })
            | inr something ↦ rw something (record {
              partly = g.partly;
              reason = by_error e n k0 last fails (rw something value);
            })
          ])

    -- The step behind the read, on what it returned and the kernel that it left.
    called :
        (a : RecvAwaiter K) (r : Received) (k : K) (n : ℕ) (k0 : K)
        → os.recv n k0 ≡ (r, k)
        → Going full len sent a
        → stream.pending a.kernel ≡ bytes_of r ++ stream.pending k
        → length a.buf + length (bytes_of r) ≤ a.len
        → (r ≡ got [] → stream.pending k ≡ [])
        → After
            (Going full len sent)
            (Ended full len sent)
            (on_received os (record a { kernel = k }) r)
    unfolding on_received recv_await_resume
    called a (got (b ∷ bs)) k n k0 last g d m z =
        let grown = length-append a.buf (b ∷ bs) in
        let whole = d ∙ refl in
        on_got (record a { kernel = k; buf = a.buf ++ b ∷ bs })
          (record {
            partly = record {
              same_full = g.partly.same_full;
              same_len = g.partly.same_len;
              delivered =
                  g.partly.delivered
                  ∙ ap (λ l. a.buf ++ l) whole
                  ∙ sym (append_assoc a.buf (b ∷ bs) (stream.pending k));
              fits = ground (arith, grown, m, g.partly.same_len);
            };
            clean = g.clean;
          })
          (ground (arith, grown))
    called a (got []) k n k0 last g d m z = record {
      partly = record {
        same_full = g.partly.same_full;
        same_len = g.partly.same_len;
        delivered = g.partly.delivered ∙ ap (λ l. a.buf ++ l) d;
        fits = g.partly.fits;
      };
      reason = at_eof refl (z refl) (recv_value a g.clean);
    }
    called a (not_got e) k n k0 last g d m z =
        on_error (record a { kernel = k }) e n k0 last
          (record {
            partly = record {
              same_full = g.partly.same_full;
              same_len = g.partly.same_len;
              delivered = g.partly.delivered ∙ ap (λ l. a.buf ++ l) d;
              fits = g.partly.fits;
            };
            clean = g.clean;
          })

    attempt-Ended :
        (a : RecvAwaiter K)
        → Going full len sent a
        → After (Going full len sent) (Ended full len sent) (recv_attempt_once os a)
    unfolding recv_attempt_once
    attempt-Ended a g =
        let n = a.len - length a.buf in
        if-After (Going full len sent) (Ended full len sent) (leb a.len (length a.buf)) _ _
          (λ all. record {
            partly = g.partly;
            reason =
                filled (ground (arith, all, g.partly.same_len, g.partly.fits))
                  (recv_value a g.clean);
          })
          (λ more.
            called a (os.recv n a.kernel).0 (os.recv n a.kernel).1 n a.kernel refl g
              (stream.in_order n a.kernel) (ground (arith, stream.at_most n a.kernel, more))
              (stream.at_end n a.kernel (ground (arith, more))))

  -- A read of `len` bytes that got its turn on a stream, after any number of events. While it waits, and when
  -- it is over, the buffer holds the front of what the stream had to read, in order and without a gap,
  -- never more than `len` bytes. It is over only if the buffer is full, or `full` was not asked for and a
  -- byte has come, or the peer has closed and all bytes were delivered, or the last read has failed; it returns
  -- the number of bytes in the buffer, and -1 only if a read failed before any byte.
  pub recv_attempt_once-Delivers :
      (full : Bool) (len : ℕ) (rx_eof : Bool) (k : K) (d0 d : Drain (RecvAwaiter K)) (events : ℕ)
      → d0.work ≡ recv_awaiter full len rx_eof k
      → Life (recv_attempt_once os) d0 events d
      → Stands (Going full len (stream.pending k)) (Ended full len (stream.pending k)) d
  unfolding recv_awaiter
  recv_attempt_once-Delivers full len rx_eof k d0 d events starts life =
      let sent = stream.pending k in
      Life-Stands (recv_attempt_once os) (Going full len sent) (Ended full len sent)
        (attempt-Ended full len sent) d0 d events
        (subst (Going full len sent) (sym starts) (record {
          partly = record {
            same_full = refl;
            same_len = refl;
            delivered = refl;
            fits = omega arith;
          };
          clean = refl;
        }))
        life
