-- ===== src/StreamSocket/Send/Ending.antt =====
-- The life of a write, from the calls that make it to what it returns.
use co_wq.Prelude.{ℕ, suc, ◌-◌, refl, sym, inl, inr, Bool, List, append-nil, arith}
use co_wq.Serial.{Drain}
use co_wq.Serial.Events.{Life}
use co_wq.Serial.Work.{After, if-After, Stands, Life-Stands}
use co_wq.StreamSocket.{Kernel}
use co_wq.StreamSocket.Send.{
  SendAwaiter, total, concat, send_awaiter, send_vec_awaiter, send_attempt_once,
}
use co_wq.StreamSocket.Send.Delivery.{TakesStream, Going, Ended}
use co_wq.StreamSocket.Send.Rounds.{send_rounds-After}
use co_wq.StreamSocket.Send.VectorRounds.{writev_rounds-After}

-- The two ways to start a write of some bytes.
pub data Starts {K : Type 0} (full : Bool) : List ℕ → K → SendAwaiter K → Type 0 where
  of_buffer : (bs : List ℕ) (down : Bool) (k : K) → Starts full bs k (send_awaiter bs full down k)
  of_vector :
      (iov : List (List ℕ)) (down : Bool) (k : K)
      → Starts full (concat iov) k (send_vec_awaiter iov full down k)

module _ {K : Type 0} (os : Kernel K) (stream : TakesStream os) (full : Bool) where
  Starts-Going :
      (bytes : List ℕ) (k : K) (a : SendAwaiter K)
      → Starts full bytes k a
      → Going os stream full bytes (stream.written k) a
  unfolding send_awaiter send_vec_awaiter
  Starts-Going _ _ _ (of_buffer bs down k) = record {
    partly = record {
      same_full = refl;
      written = sym (append-nil (stream.written k));
      fits = omega arith;
    };
    names = inl (record { flat = refl; named = refl; measured = refl });
    clean = refl;
  }
  Starts-Going _ _ _ (of_vector iov down k) = record {
    partly = record {
      same_full = refl;
      written = sym (append-nil (stream.written k));
      fits = omega arith;
    };
    names = inr (record { vectored = refl; named = refl });
    clean = refl;
  }

  attempt-Ended :
      (bytes before : List ℕ) (a : SendAwaiter K)
      → Going os stream full bytes before a
      → After
          (Going os stream full bytes before)
          (Ended os stream full bytes before)
          (send_attempt_once os a)
  unfolding send_attempt_once
  attempt-Ended bytes before a g =
      if-After (Going os stream full bytes before) (Ended os stream full bytes before) a.use_vec _ _
        (λ v. elim g.names [
          | inl b ↦ cc
          | inr b ↦
              writev_rounds-After os stream full bytes before (suc (total a.vec)) a b g.partly
                g.clean (omega arith)
        ])
        (λ v. elim g.names [
          | inl b ↦
              send_rounds-After os stream full bytes before (a.len - a.sent) a b g.partly g.clean
                (omega (arith, b.measured))
          | inr b ↦ cc
        ])

  -- A write of some bytes, from a buffer or an `iovec`, that got its turn, after any number of events. While
  -- it waits, and when it is over, the kernel has taken the front of the bytes, `sent` of them, in order
  -- and without a gap, and nothing else. It is over only if all bytes are taken, or a call took none, or
  -- the stream would block and `full` was not asked for, or a call has failed, which marks the sending side
  -- closed where the connection is lost; it returns the number of bytes taken, and -1 only if a call
  -- failed before any byte.
  pub send_attempt_once-Delivers :
      (bytes : List ℕ) (k : K) (d0 d : Drain (SendAwaiter K)) (events : ℕ)
      → Starts full bytes k d0.work
      → Life (send_attempt_once os) d0 events d
      → Stands
          (Going os stream full bytes (stream.written k))
          (Ended os stream full bytes (stream.written k))
          d
  send_attempt_once-Delivers bytes k d0 d events starts life =
      let before = stream.written k in
      Life-Stands (send_attempt_once os) (Going os stream full bytes before)
        (Ended os stream full bytes before) (attempt-Ended bytes before) d0 d events
        (Starts-Going bytes k d0.work starts) life
