-- ===== src/Tls/Receiving.antt =====
-- What `recv` and `recv_all` of a TLS socket deliver.
use co_wq.Prelude.{
  ℕ, inl, inr, ltb, Option, Bool-cases, ◌%◌, ◌^◌, ◌&&◌, ◌+◌, ◌≤◌, ◌<◌, ◌≡◌, refl, sym, ap, subst,
  ◌∙◌, Bool, true, false, not, List, [], ◌∷◌, ◌++◌, append_assoc, ◌==◌, if◌then◌else◌, length,
  length-append, arith,
}
use co_wq.Serial.{progress, complete}
use co_wq.Serial.Work.{After, if-After, answer-After}
use co_wq.Tls.{
  Failure, SslRead, stored, not_read, Ssl, translate_failure, wants, ssl_error_zero_return, count,
  result_of, RecvAwaiter, recv_failed, on_read, recv_await_resume, size_of, to_int,
}

abbrev pub bytes_of : SslRead → List ℕ
bytes_of (stored bs) = bs
bytes_of (not_read f) = []

pub size_of-to_int : (n : ℕ) → size_of (to_int n) ≤ n
size_of-to_int n = elim (Bool-cases (ltb (n % 2 ^ 32) (2 ^ 31))) [
  | inl e ↦ rw e (omega arith)
  | inr e ↦ rw e (omega arith)
]

-- The results that the source takes for the end of the data.
abbrev pub is_eof : SslRead → Bool
is_eof (stored []) = true
is_eof (stored (b ∷ bs)) = false
is_eof (not_read f) = not (wants f.ssl_err) && f.ssl_err == ssl_error_zero_return

-- OpenSSL that decrypts a byte stream: `pending` is all the peer's plain text that is still to be read, now or later. A
-- read stores at most what it was asked for, off the front of it.
pub record Decrypts {K : Type 0} (os : Ssl K) : Type 0 where
  pub pending : K → List ℕ
  pub in_order :
      (n : Option ℕ) (k : K)
      → pending k ≡ bytes_of (os.ssl_read n k).0 ++ pending (os.ssl_read n k).1
  pub at_most : (n : Option ℕ) (k : K) → length (bytes_of (os.ssl_read n k).0) ≤ size_of n

module _ {K : Type 0} (os : Ssl K) (stream : Decrypts os) where
  -- What an awaiter has of a stream that had `sent` to read at the start: the front of it, which fits.
  pub record Partly (full : Bool) (len : ℕ) (sent : List ℕ) (a : RecvAwaiter K) : Type 0 where
    pub same_full : a.full ≡ full
    pub same_len : a.len ≡ len
    pub delivered : sent ≡ a.buf ++ stream.pending a.ssl
    pub fits : length a.buf ≤ len

  -- The last call of OpenSSL, which left it as it is, returned `r`.
  abbrev pub LastRead : RecvAwaiter K → SslRead → Type 0
  LastRead a r = (n : Option ℕ) × (k : K) × (os.ssl_read n k ≡ (r, a.ssl))

  -- Why an operation may end, with what it returns.
  pub data Reason (full : Bool) (len : ℕ) (a : RecvAwaiter K) : Type 0 where
    filled : length a.buf ≡ len → recv_await_resume a ≡ count (length a.buf) → Reason full len a
    in_part :
        full ≡ false
        → 0 < length a.buf
        → recv_await_resume a ≡ count (length a.buf)
        → Reason full len a
    at_eof :
        (r : SslRead)
        → LastRead a r
        → is_eof r ≡ true
        → a.rx_eof ≡ true
        → recv_await_resume a ≡ count (length a.buf)
        → Reason full len a
    by_error :
        (f : Failure)
        → LastRead a (not_read f)
        → wants f.ssl_err ≡ false
        → (f.ssl_err == ssl_error_zero_return) ≡ false
        → recv_await_resume a ≡ result_of (translate_failure f) (length a.buf)
        → Reason full len a

  pub record Going (full : Bool) (len : ℕ) (sent : List ℕ) (a : RecvAwaiter K) : Type 0 where
    pub partly : Partly full len sent a
    pub clean : a.err ≡ 0

  pub record Ended (full : Bool) (len : ℕ) (sent : List ℕ) (a : RecvAwaiter K) : Type 0 where
    pub partly : Partly full len sent a
    pub reason : Reason full len a

  recv_value : (a : RecvAwaiter K) → a.err ≡ 0 → recv_await_resume a ≡ count (length a.buf)
  unfolding recv_await_resume
  recv_value a e = ap (λ e. result_of e (length a.buf)) e

  module _ (full : Bool) (len : ℕ) (sent : List ℕ) where
    -- A byte at least has come: `a` holds it already.
    on_stored :
        (a : RecvAwaiter K)
        → Going full len sent a
        → 0 < length a.buf
        → After (Going full len sent) (Ended full len sent) (
          if not a.full then complete else if length a.buf == a.len then complete else progress,
          a,
        )
    on_stored a g some_came =
        answer-After (Going full len sent) (Ended full len sent) (not a.full) _ _ a
          (λ partial. record {
            partly = g.partly;
            reason =
                in_part (ground (arith, partial, g.partly.same_full)) some_came
                  (recv_value a g.clean);
          })
          (λ whole.
            answer-After (Going full len sent) (Ended full len sent) (length a.buf == a.len) _ _ a
              (λ all. record {
                partly = g.partly;
                reason = filled (ground (arith, all, g.partly.same_len)) (recv_value a g.clean);
              })
              (λ more. g))

    moved :
        (a a' : RecvAwaiter K)
        → Partly full len sent a
        → a'.full ≡ a.full
        → a'.len ≡ a.len
        → a'.buf ≡ a.buf
        → a'.ssl ≡ a.ssl
        → Partly full len sent a'
    moved a a' p f l b k = record {
      same_full = f ∙ p.same_full;
      same_len = l ∙ p.same_len;
      delivered =
          p.delivered
          ∙ sym (ap (λ x. x ++ stream.pending a'.ssl) b ∙ ap (λ x. a.buf ++ stream.pending x) k);
      fits = subst (λ x. length x ≤ len) (sym b) p.fits;
    }

    on_failed :
        (a : RecvAwaiter K) (f : Failure)
        → LastRead a (not_read f)
        → Going full len sent a
        → After (Going full len sent) (Ended full len sent) (recv_failed a f)
    unfolding recv_await_resume
    on_failed a f last g =
        if-After (Going full len sent) (Ended full len sent) (wants f.ssl_err) _ _
          (λ again. record { partly = moved a _ g.partly refl refl refl refl; clean = g.clean })
          (λ fails.
            if-After (Going full len sent) (Ended full len sent)
              (f.ssl_err == ssl_error_zero_return) _ _
              (λ eof. record {
                partly = moved a _ g.partly refl refl refl refl;
                reason =
                    at_eof (not_read f) last (ground (arith, fails, eof)) refl
                      (recv_value (record a { rx_eof = true }) g.clean);
              })
              (λ error. record {
                partly = moved a _ g.partly refl refl refl refl;
                reason = by_error f last fails error refl;
              }))

    called :
        (a : RecvAwaiter K) (r : SslRead) (k : K) (n : Option ℕ) (k0 : K)
        → os.ssl_read n k0 ≡ (r, k)
        → Going full len sent a
        → stream.pending a.ssl ≡ bytes_of r ++ stream.pending k
        → length a.buf + length (bytes_of r) ≤ a.len
        → After (Going full len sent) (Ended full len sent) (on_read (record a { ssl = k }) r)
    called a (stored (b ∷ bs)) k n k0 last g d m =
        let grown = length-append a.buf (b ∷ bs) in
        let whole = d ∙ refl in
        on_stored (record a { ssl = k; buf = a.buf ++ b ∷ bs })
          (record {
            partly = record {
              same_full = g.partly.same_full;
              same_len = g.partly.same_len;
              delivered =
                  g.partly.delivered
                  ∙ ap (λ l. a.buf ++ l) whole
                  ∙ sym (append_assoc a.buf (b ∷ bs) (stream.pending k));
              fits = ground (arith, grown, m, g.partly.same_len);
            };
            clean = g.clean;
          })
          (ground (arith, grown))
    called a (stored []) k n k0 last g d m = record {
      partly = record {
        same_full = g.partly.same_full;
        same_len = g.partly.same_len;
        delivered = g.partly.delivered ∙ ap (λ l. a.buf ++ l) d;
        fits = g.partly.fits;
      };
      reason =
          at_eof (stored []) (n, k0, last) refl refl
            (recv_value (record a { ssl = k; rx_eof = true }) g.clean);
    }
    called a (not_read f) k n k0 last g d m =
        on_failed (record a { ssl = k }) f (n, k0, last)
          (record {
            partly = record {
              same_full = g.partly.same_full;
              same_len = g.partly.same_len;
              delivered = g.partly.delivered ∙ ap (λ l. a.buf ++ l) d;
              fits = g.partly.fits;
            };
            clean = g.clean;
          })
