-- ===== src/Tls/Sending.antt =====
-- What `send` and `send_all` of a TLS socket hand to OpenSSL.
use co_wq.Prelude.{
  ℕ, ◌-◌, ◌&&◌, ◌==◌, not, Option, ◌+◌, ◌≤◌, ◌<◌, ◌≡◌, refl, sym, ap, subst, ◌∙◌, Bool, true, false,
  not, List, ◌++◌, append_assoc, append-nil, leb, ltb, ◌==◌, if◌then◌else◌, length, take, drop,
  take-more, length-drop, arith,
}
use co_wq.Tls.{size_of, to_int}
use co_wq.Tls.Receiving.{size_of-to_int}
use co_wq.Serial.{progress, complete, Drain}
use co_wq.Serial.Events.{Life}
use co_wq.Serial.Work.{After, if-After, answer-After, Stands, Life-Stands}
use co_wq.Tls.{
  Failure, SslWritten, wrote, not_written, Ssl, translate_failure, wants, ssl_error_zero_return,
  count, result_of, SendAwaiter, send_awaiter, send_failed, on_written, send_attempt_once,
  send_await_resume,
}

abbrev pub number_of : SslWritten → ℕ
number_of (wrote n) = n
number_of (not_written f) = 0

-- The results that the source takes for the end of the connection.
abbrev pub is_closed : SslWritten → Bool
is_closed (wrote n) = n == 0
is_closed (not_written f) = not (wants f.ssl_err) && f.ssl_err == ssl_error_zero_return

-- OpenSSL that takes plain text: `written` is what it took so far. A write takes the front of what it is offered.
pub record Encrypts {K : Type 0} (os : Ssl K) : Type 0 where
  pub written : K → List ℕ
  pub at_most : (bs : List ℕ) (n : Option ℕ) (k : K) → number_of (os.ssl_write bs n k).0 ≤ size_of n
  pub in_order :
      (bs : List ℕ) (n : Option ℕ) (k : K)
      → written (os.ssl_write bs n k).1 ≡ written k ++ take (number_of (os.ssl_write bs n k).0) bs

module _ {K : Type 0} (os : Ssl K) (stream : Encrypts os) where
  -- What was written of `bytes` behind what OpenSSL had taken `before`: the front of it, `sent` bytes.
  pub record Partly (full : Bool) (bytes before : List ℕ) (a : SendAwaiter K) : Type 0 where
    pub same_full : a.full ≡ full
    pub same_buf : a.buf ≡ bytes
    pub written : stream.written a.ssl ≡ before ++ take a.sent bytes
    pub fits : a.sent ≤ length bytes

  -- The last call of OpenSSL, which left it as it is, was for what is still to be written, and returned `r`.
  abbrev pub LastWrite : SendAwaiter K → SslWritten → Type 0
  LastWrite a r =
      (k : K) × (os.ssl_write (drop a.sent a.buf) (to_int (length a.buf - a.sent)) k ≡ (r, a.ssl))

  -- Why an operation may end, with what it returns.
  pub data Reason (full : Bool) (bytes : List ℕ) (a : SendAwaiter K) : Type 0 where
    all_sent : a.sent ≡ length bytes → send_await_resume a ≡ count a.sent → Reason full bytes a
    in_part : full ≡ false → 0 < a.sent → send_await_resume a ≡ count a.sent → Reason full bytes a
    shut_down :
        (r : SslWritten)
        → LastWrite a r
        → is_closed r ≡ true
        → a.tx_shutdown ≡ true
        → send_await_resume a ≡ count a.sent
        → Reason full bytes a
    by_error :
        (f : Failure)
        → LastWrite a (not_written f)
        → wants f.ssl_err ≡ false
        → (f.ssl_err == ssl_error_zero_return) ≡ false
        → send_await_resume a ≡ result_of (translate_failure f) a.sent
        → Reason full bytes a

  pub record Going (full : Bool) (bytes before : List ℕ) (a : SendAwaiter K) : Type 0 where
    pub partly : Partly full bytes before a
    pub clean : a.err ≡ 0

  pub record Ended (full : Bool) (bytes before : List ℕ) (a : SendAwaiter K) : Type 0 where
    pub partly : Partly full bytes before a
    pub reason : Reason full bytes a

  send_value : (a : SendAwaiter K) → a.err ≡ 0 → send_await_resume a ≡ count a.sent
  unfolding send_await_resume
  send_value a e = ap (λ e. result_of e a.sent) e

  module _ (full : Bool) (bytes before : List ℕ) where
    moved :
        (a a' : SendAwaiter K)
        → Partly full bytes before a
        → a'.full ≡ a.full
        → a'.buf ≡ a.buf
        → a'.sent ≡ a.sent
        → stream.written a'.ssl ≡ stream.written a.ssl
        → Partly full bytes before a'
    moved a a' p f b s w = record {
      same_full = f ∙ p.same_full;
      same_buf = b ∙ p.same_buf;
      written = w ∙ p.written ∙ ap (λ n. before ++ take n bytes) (sym s);
      fits = subst (λ n. n ≤ length bytes) (sym s) p.fits;
    }

    -- Some bytes were taken: `a` counts them already.
    on_wrote :
        (a : SendAwaiter K)
        → Going full bytes before a
        → 0 < a.sent
        → After (Going full bytes before) (Ended full bytes before) (
          if not a.full then complete else if a.sent == length a.buf then complete else progress,
          a,
        )
    on_wrote a g some_taken =
        answer-After (Going full bytes before) (Ended full bytes before) (not a.full) _ _ a
          (λ partial. record {
            partly = g.partly;
            reason =
                in_part (ground (arith, partial, g.partly.same_full)) some_taken
                  (send_value a g.clean);
          })
          (λ whole.
            answer-After (Going full bytes before) (Ended full bytes before)
              (a.sent == length a.buf) _ _ a
              (λ all. record {
                partly = g.partly;
                reason =
                    all_sent (ground (arith, all, ap length g.partly.same_buf))
                      (send_value a g.clean);
              })
              (λ more. g))

    on_failed :
        (a : SendAwaiter K) (f : Failure)
        → LastWrite a (not_written f)
        → Going full bytes before a
        → After (Going full bytes before) (Ended full bytes before) (send_failed a f)
    unfolding send_await_resume
    on_failed a f last g =
        if-After (Going full bytes before) (Ended full bytes before) (wants f.ssl_err) _ _
          (λ again. record { partly = moved a _ g.partly refl refl refl refl; clean = g.clean })
          (λ fails.
            if-After (Going full bytes before) (Ended full bytes before)
              (f.ssl_err == ssl_error_zero_return) _ _
              (λ closed. record {
                partly = moved a _ g.partly refl refl refl refl;
                reason =
                    shut_down (not_written f) last (ground (arith, fails, closed)) refl
                      (send_value (record a { tx_shutdown = true }) g.clean);
              })
              (λ error. record {
                partly = moved a _ g.partly refl refl refl refl;
                reason = by_error f last fails error refl;
              }))

    taken :
        (a : SendAwaiter K) (n : ℕ) (k : K)
        → Partly full bytes before a
        → stream.written k ≡ stream.written a.ssl ++ take n (drop a.sent a.buf)
        → n ≤ length (drop a.sent a.buf)
        → Partly full bytes before (record a { ssl = k; sent = a.sent + n })
    taken a n k p w m = record {
      same_full = p.same_full;
      same_buf = p.same_buf;
      written =
          w
          ∙ ap (λ l. stream.written a.ssl ++ take n (drop a.sent l)) p.same_buf
          ∙ ap (λ l. l ++ take n (drop a.sent bytes)) p.written
          ∙ append_assoc before (take a.sent bytes) (take n (drop a.sent bytes))
          ∙ ap (λ l. before ++ l) (sym (take-more a.sent n bytes));
      fits = omega (arith, m, p.fits, length-drop a.sent a.buf, ap length p.same_buf);
    }

    unchanged :
        (a : SendAwaiter K) (n : ℕ) (k : K)
        → stream.written k ≡ stream.written a.ssl ++ take n (drop a.sent a.buf)
        → n ≡ 0
        → stream.written k ≡ stream.written a.ssl
    unchanged a n k w z =
        w
        ∙ ap (λ m. stream.written a.ssl ++ take m (drop a.sent a.buf)) z
        ∙ append-nil (stream.written a.ssl)

    called :
        (a : SendAwaiter K) (r : SslWritten) (k : K)
        → os.ssl_write (drop a.sent a.buf) (to_int (length a.buf - a.sent)) a.ssl ≡ (r, k)
        → Going full bytes before a
        → stream.written k ≡ stream.written a.ssl ++ take (number_of r) (drop a.sent a.buf)
        → number_of r ≤ length (drop a.sent a.buf)
        → After
            (Going full bytes before)
            (Ended full bytes before)
            (on_written (record a { ssl = k }) r)
    called a (wrote n) k last g w m =
        if-After (Going full bytes before) (Ended full bytes before) (ltb 0 n) _ _
          (λ some_taken.
            on_wrote (record a { ssl = k; sent = a.sent + n })
              (record { partly = taken a n k g.partly w m; clean = g.clean })
              (ground (arith, some_taken)))
          (λ nothing. record {
            partly =
                moved a _ g.partly refl refl refl (unchanged a n k w (ground (arith, nothing)));
            reason =
                shut_down (wrote n) (a.ssl, last) (ground (arith, nothing)) refl
                  (send_value (record a { ssl = k; tx_shutdown = true }) g.clean);
          })
    called a (not_written f) k last g w m =
        on_failed (record a { ssl = k }) f (a.ssl, last)
          (record {
            partly = moved a _ g.partly refl refl refl (w ∙ append-nil (stream.written a.ssl));
            clean = g.clean;
          })

    attempt-After :
        (a : SendAwaiter K)
        → Going full bytes before a
        → After (Going full bytes before) (Ended full bytes before) (send_attempt_once os a)
    unfolding send_attempt_once
    attempt-After a g =
        let bs = drop a.sent a.buf in
        let n = to_int (length a.buf - a.sent) in
        if-After (Going full bytes before) (Ended full bytes before) (leb (length a.buf) a.sent) _ _
          (λ all. record {
            partly = g.partly;
            reason =
                all_sent (ground (arith, all, ap length g.partly.same_buf, g.partly.fits))
                  (send_value a g.clean);
          })
          (λ more.
            called a (os.ssl_write bs n a.ssl).0 (os.ssl_write bs n a.ssl).1 refl g
              (stream.in_order bs n a.ssl)
              (omega (
                arith,
                stream.at_most bs n a.ssl,
                size_of-to_int (length a.buf - a.sent),
                length-drop a.sent a.buf,
              )))

  -- A write to a TLS socket that got its turn, after any number of events. While it waits, and when it is over,
  -- OpenSSL has taken the front of the bytes, `sent` of them, in order and without a gap. It is over only if all
  -- bytes are taken, or `full` was not asked for and some are, or OpenSSL reported that the connection is
  -- closed, or a call has failed other than for a wait. It returns `sent`, or the negative error of a call that
  -- failed before any byte.
  pub tls_send-Delivers :
      (full : Bool) (bytes : List ℕ) (tx_shutdown : Bool) (k : K) (d0 d : Drain (SendAwaiter K))
      (events : ℕ)
      → d0.work ≡ send_awaiter full bytes tx_shutdown k
      → Life (send_attempt_once os) d0 events d
      → Stands (Going full bytes (stream.written k)) (Ended full bytes (stream.written k)) d
  unfolding send_awaiter
  tls_send-Delivers full bytes tx_shutdown k d0 d events starts life =
      let before = stream.written k in
      Life-Stands (send_attempt_once os) (Going full bytes before) (Ended full bytes before)
        (attempt-After full bytes before) d0 d events
        (subst (Going full bytes before) (sym starts) (record {
          partly = record {
            same_full = refl;
            same_buf = refl;
            written = sym (append-nil before);
            fits = omega arith;
          };
          clean = refl;
        }))
        life
