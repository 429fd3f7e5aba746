-- ===== src/StreamSocket/Send/VectorRounds.antt =====
-- The loop of `send` over an `iovec`.
use co_wq.Prelude.{
  ℕ, zero, suc, ◌+◌, ◌≤◌, ◌<◌, ◌≡◌, refl, sym, ap, ◌∙◌, inr, true, none, List, [], ◌∷◌, ◌++◌, Bool,
  length, take, drop, drop-drop, length-drop, arith,
}
use co_wq.Serial.{Attempt}
use co_wq.Serial.Work.{After, if-After}
use co_wq.StreamSocket.{Sent, took, not_took, Kernel}
use co_wq.StreamSocket.Send.{
  SendAwaiter, total, advance_iov, is_empty, after_writev, writev_rounds, return_of,
  send_await_resume,
}
use co_wq.StreamSocket.Send.Delivery.{
  number_of, TakesStream, Vector, Partly, none_taken, all_sent, Going, Ended, resumes, moved,
  not_sent-After,
}
use co_wq.StreamSocket.Send.Vector.{advance_iov-drop, length-concat}

module _ {K : Type 0} (os : Kernel K) (stream : TakesStream os) (full : Bool)
    (bytes before : List ℕ) where
  abbrev Kept : SendAwaiter K → Type 0
  Kept = Going os stream full bytes before

  abbrev Done : SendAwaiter K → Type 0
  Done = Ended os stream full bytes before

  left : (a : SendAwaiter K) → Vector bytes a → total a.vec ≡ length (drop a.sent bytes)
  left a b = sym (length-concat a.vec) ∙ ap length b.named

  none_left : (vec : List (List ℕ)) → is_empty vec ≡ true → total vec ≡ 0
  none_left [] e = refl
  none_left (v ∷ vec) e = cc

  emptied :
      (a : SendAwaiter K)
      → Vector bytes a
      → Partly os stream full bytes before a
      → is_empty a.vec ≡ true
      → a.sent ≡ length bytes
  emptied a b p e = omega (arith, left a b, none_left a.vec e, length-drop a.sent bytes, p.fits)

  -- The rounds of one loop, given what the rounds behind the first bring about.
  writev-After :
      (again : SendAwaiter K → Attempt × SendAwaiter K) (a : SendAwaiter K) (r : Sent) (k : K)
      → Vector bytes a
      → Partly os stream full bytes before a
      → a.err ≡ none
      → stream.written k ≡ stream.written a.kernel ++ take (number_of r) (drop a.sent bytes)
      → number_of r ≤ length (drop a.sent bytes)
      → os.writev a.vec a.kernel ≡ (r, k)
      → ((a' : SendAwaiter K)
          → Vector bytes a'
          → Partly os stream full bytes before a'
          → a'.err ≡ none
          → a.sent < a'.sent
          → After Kept Done (again a'))
      → After Kept Done (after_writev os again (record a { kernel = k }) r)
  unfolding after_writev send_await_resume
  writev-After again a (took zero) k b p c w l z f = record {
    partly =
        moved os stream full bytes before a (record a { kernel = k }) 0 p refl (omega arith) w l;
    reason = none_taken (a.kernel, rw b.vectored z) (ap (λ e. return_of e a.sent) c);
  }
  writev-After again a (took (suc n)) k b p c w l z f =
      let a' = record a { kernel = k; sent = a.sent + suc n; vec = advance_iov (suc n) a.vec } in
      let p' = moved os stream full bytes before a a' (suc n) p refl refl w l in
      let b' : Vector bytes a' = record {
        vectored = b.vectored;
        named =
            advance_iov-drop (suc n) a.vec
            ∙ ap (drop (suc n)) b.named
            ∙ drop-drop a.sent (suc n) bytes;
      } in
      if-After Kept Done (is_empty a'.vec) _ _
        (λ all. record {
          partly = p';
          reason = all_sent (emptied a' b' p' all) (ap (λ e. return_of e a'.sent) c);
        })
        (λ more. f a' b' p' c (omega arith))
  writev-After again a (not_took e) k b p c w l z f =
      not_sent-After os stream full bytes before (record a { kernel = k }) e
        (a.kernel, rw b.vectored z)
        (record {
          partly =
              moved os stream full bytes before a (record a { kernel = k }) 0 p refl (omega arith) w
                l;
          names = inr (record { vectored = b.vectored; named = b.named });
          clean = c;
        })

  -- `advance_iov` leaves fewer bytes, or nothing.
  pub writev_rounds-After :
      (fuel : ℕ) (a : SendAwaiter K)
      → Vector bytes a
      → Partly os stream full bytes before a
      → a.err ≡ none
      → total a.vec < fuel
      → After Kept Done (writev_rounds os fuel a)
  unfolding writev_rounds
  writev_rounds-After zero a b p c l = absurd (omega arith)
  writev_rounds-After (suc fuel) a b p c l =
      let (r, k) = os.writev a.vec a.kernel in
      if-After Kept Done (is_empty a.vec) _ _
        (λ all. record {
          partly = p;
          reason = all_sent (emptied a b p all) (resumes os stream full bytes before a c);
        })
        (λ more.
          writev-After (writev_rounds os fuel) a r k b p c
            (stream.in_order_v a.vec a.kernel
              ∙ ap (λ x. stream.written a.kernel ++ take (number_of r) x) b.named)
            (omega (arith, stream.at_most_v a.vec a.kernel, left a b)) refl
            (λ a' b' p' c' grew. writev_rounds-After fuel a' b' p' c' (
              omega (
                arith,
                l,
                grew,
                left a b,
                left a' b',
                length-drop a.sent bytes,
                length-drop a'.sent bytes,
                p'.fits,
              ))))
