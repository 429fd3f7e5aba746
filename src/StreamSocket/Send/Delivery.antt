-- ===== src/StreamSocket/Send/Delivery.antt =====
-- What a write of a stream socket has done so far, and at its end, to the bytes it was given.
use co_wq.Prelude.{
  ℕ, ◌+◌, ◌≤◌, ◌≡◌, refl, sym, ap, ◌∙◌, ◌⊎◌, Bool, true, false, none, List, ◌++◌, append_assoc,
  ◌==◌, if◌then◌else◌, length, take, drop, take-more, length-drop, arith,
}
use co_wq.Serial.Work.{After, if-After, answer-After}
use co_wq.StreamSocket.{Errno, Sent, took, not_took, Kernel, is_again, is_broken, count, minus_one}
use co_wq.StreamSocket.Send.{SendAwaiter, total, concat, not_sent, return_of, send_await_resume}

-- The number of bytes that a write took.
abbrev pub number_of : Sent → ℕ
number_of (took n) = n
number_of (not_took e) = 0

-- A kernel that appends to a byte stream what it takes: the front of what it was offered.
pub record TakesStream {K : Type 0} (os : Kernel K) : Type 0 where
  pub written : K → List ℕ
  pub at_most : (bs : List ℕ) (k : K) → number_of (os.send bs k).0 ≤ length bs
  pub in_order :
      (bs : List ℕ) (k : K)
      → written (os.send bs k).1 ≡ written k ++ take (number_of (os.send bs k).0) bs
  pub at_most_v : (iov : List (List ℕ)) (k : K) → number_of (os.writev iov k).0 ≤ total iov
  pub in_order_v :
      (iov : List (List ℕ)) (k : K)
      → written (os.writev iov k).1 ≡ written k ++ take (number_of (os.writev iov k).0) (concat iov)

-- An awaiter that is to write `bytes`, from a buffer or an `iovec`.
pub record Buffer {K : Type 0} (bytes : List ℕ) (a : SendAwaiter K) : Type 0 where
  pub flat : a.use_vec ≡ false
  pub named : a.buf ≡ bytes
  pub measured : a.len ≡ length bytes

pub record Vector {K : Type 0} (bytes : List ℕ) (a : SendAwaiter K) : Type 0 where
  pub vectored : a.use_vec ≡ true
  pub named : concat a.vec ≡ drop a.sent bytes

module _ {K : Type 0} (os : Kernel K) (stream : TakesStream os) where
  -- What was written of `bytes` behind what the stream had `before`: the front of it, `sent` bytes.
  pub record Partly (full : Bool) (bytes before : List ℕ) (a : SendAwaiter K) : Type 0 where
    pub same_full : a.full ≡ full
    pub written : stream.written a.kernel ≡ before ++ take a.sent bytes
    pub fits : a.sent ≤ length bytes

  -- The last call of the kernel, which left it as it is, was for what is still to be written, and returned `r`.
  abbrev pub LastCall : SendAwaiter K → Sent → Type 0
  LastCall a r =
      (k : K) × ((if a.use_vec then os.writev a.vec k else os.send (drop a.sent a.buf) k)
        ≡ (r, a.kernel))

  -- Why an operation may end: all is written, or a call took nothing, or the stream would block and `full`
  -- was not asked for, or a call has failed, which is returned if nothing was written.
  pub data Reason (full : Bool) (bytes : List ℕ) (a : SendAwaiter K) : Type 0 where
    all_sent : a.sent ≡ length bytes → send_await_resume a ≡ count a.sent → Reason full bytes a
    none_taken : LastCall a (took 0) → send_await_resume a ≡ count a.sent → Reason full bytes a
    in_part :
        (e : Errno)
        → LastCall a (not_took e)
        → is_again e ≡ true
        → full ≡ false
        → send_await_resume a ≡ count a.sent
        → Reason full bytes a
    by_error :
        (e : Errno)
        → LastCall a (not_took e)
        → is_again e ≡ false
        → (is_broken e ≡ true → a.tx_shutdown ≡ true)
        → send_await_resume a ≡ (if a.sent == 0 then minus_one e else count a.sent)
        → Reason full bytes a

  pub record Going (full : Bool) (bytes before : List ℕ) (a : SendAwaiter K) : Type 0 where
    pub partly : Partly full bytes before a
    pub names : Buffer bytes a ⊎ Vector bytes a
    pub clean : a.err ≡ none

  pub record Ended (full : Bool) (bytes before : List ℕ) (a : SendAwaiter K) : Type 0 where
    pub partly : Partly full bytes before a
    pub reason : Reason full bytes a

  module _ (full : Bool) (bytes before : List ℕ) where
    pub resumes : (a : SendAwaiter K) → a.err ≡ none → send_await_resume a ≡ count a.sent
    unfolding send_await_resume
    resumes a e = ap (λ e. return_of e a.sent) e

    -- What was written with `n` more bytes of what was still to be written.
    pub moved :
        (a a' : SendAwaiter K) (n : ℕ)
        → Partly full bytes before a
        → a'.full ≡ a.full
        → a'.sent ≡ a.sent + n
        → stream.written a'.kernel ≡ stream.written a.kernel ++ take n (drop a.sent bytes)
        → n ≤ length (drop a.sent bytes)
        → Partly full bytes before a'
    moved a a' n p f s w l = record {
      same_full = f ∙ p.same_full;
      written =
          w
          ∙ ap (λ x. x ++ take n (drop a.sent bytes)) p.written
          ∙ append_assoc before (take a.sent bytes) (take n (drop a.sent bytes))
          ∙ ap (λ x. before ++ x) (sym (take-more a.sent n bytes))
          ∙ ap (λ m. before ++ take m bytes) (sym s);
      fits = omega (arith, length-drop a.sent bytes, p.fits, l, s);
    }

    pub not_sent-After :
        (a : SendAwaiter K) (e : Errno)
        → LastCall a (not_took e)
        → Going full bytes before a
        → After (Going full bytes before) (Ended full bytes before) (not_sent os a e)
    unfolding not_sent send_await_resume
    not_sent-After a e last g =
        if-After (Going full bytes before) (Ended full bytes before) (is_again e) _ _
          (λ again.
            answer-After (Going full bytes before) (Ended full bytes before) a.full _ _ a
              (λ whole. g)
              (λ partial. record {
                partly = g.partly;
                reason =
                    in_part e last again (sym g.partly.same_full ∙ partial) (resumes a g.clean);
              }))
          (λ fails. record {
            partly = record {
              same_full = g.partly.same_full;
              written = g.partly.written;
              fits = g.partly.fits;
            };
            reason = by_error e last fails (λ b. rw b) refl;
          })
