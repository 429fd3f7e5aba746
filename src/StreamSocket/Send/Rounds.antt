-- ===== src/StreamSocket/Send/Rounds.antt =====
-- The loop of `send` over a buffer.
use co_wq.Prelude.{
  ℕ, zero, suc, ◌+◌, ◌-◌, ◌≤◌, ◌<◌, ◌≡◌, refl, ap, subst, ◌∙◌, inl, none, List, ◌++◌, leb, ◌==◌,
  Bool, length, take, drop, arith,
}
use co_wq.Serial.{Attempt}
use co_wq.Serial.Work.{After, if-After}
use co_wq.StreamSocket.{Sent, took, not_took, Kernel}
use co_wq.StreamSocket.Send.{SendAwaiter, after_send, send_rounds, return_of, send_await_resume}
use co_wq.StreamSocket.Send.Delivery.{
  number_of, TakesStream, Buffer, Partly, none_taken, all_sent, Going, Ended, resumes, moved,
  not_sent-After,
}

module _ {K : Type 0} (os : Kernel K) (stream : TakesStream os) (full : Bool)
    (bytes before : List ℕ) where
  abbrev Kept : SendAwaiter K → Type 0
  Kept = Going os stream full bytes before

  abbrev Done : SendAwaiter K → Type 0
  Done = Ended os stream full bytes before

  -- The rounds of one loop, given what the rounds behind the first bring about.
  send-After :
      (again : SendAwaiter K → Attempt × SendAwaiter K) (a : SendAwaiter K) (r : Sent) (k : K)
      → Buffer bytes a
      → Partly os stream full bytes before a
      → a.err ≡ none
      → stream.written k ≡ stream.written a.kernel ++ take (number_of r) (drop a.sent bytes)
      → number_of r ≤ length (drop a.sent bytes)
      → os.send (drop a.sent a.buf) a.kernel ≡ (r, k)
      → ((a' : SendAwaiter K)
          → Buffer bytes a'
          → Partly os stream full bytes before a'
          → a'.err ≡ none
          → a.sent < a'.sent
          → After Kept Done (again a'))
      → After Kept Done (after_send os again (record a { kernel = k }) r)
  unfolding after_send send_await_resume
  send-After again a (took zero) k b p c w l z f = record {
    partly =
        moved os stream full bytes before a (record a { kernel = k }) 0 p refl (omega arith) w l;
    reason = none_taken (a.kernel, rw b.flat z) (ap (λ e. return_of e a.sent) c);
  }
  send-After again a (took (suc n)) k b p c w l z f =
      let a' = record a { kernel = k; sent = a.sent + suc n } in
      let p' = moved os stream full bytes before a a' (suc n) p refl refl w l in
      let b' : Buffer bytes a' = record { flat = b.flat; named = b.named; measured = b.measured } in
      if-After Kept Done (a'.sent == a'.len) _ _
        (λ all. record {
          partly = p';
          reason = all_sent (ground (arith, all, b.measured)) (ap (λ e. return_of e a'.sent) c);
        })
        (λ more. f a' b' p' c (omega arith))
  send-After again a (not_took e) k b p c w l z f =
      not_sent-After os stream full bytes before (record a { kernel = k }) e (a.kernel, rw b.flat z)
        (record {
          partly =
              moved os stream full bytes before a (record a { kernel = k }) 0 p refl (omega arith) w
                l;
          names = inl (record { flat = b.flat; named = b.named; measured = b.measured });
          clean = c;
        })

  pub send_rounds-After :
      (fuel : ℕ) (a : SendAwaiter K)
      → Buffer bytes a
      → Partly os stream full bytes before a
      → a.err ≡ none
      → length bytes - a.sent ≤ fuel
      → After Kept Done (send_rounds os fuel a)
  unfolding send_rounds
  send_rounds-After zero a b p c l = record {
    partly = p;
    reason = all_sent (omega (arith, p.fits, l)) (resumes os stream full bytes before a c);
  }
  send_rounds-After (suc fuel) a b p c l =
      let (r, k) = os.send (drop a.sent a.buf) a.kernel in
      let rest : drop a.sent a.buf ≡ drop a.sent bytes = ap (drop a.sent) b.named in
      if-After Kept Done (leb a.len a.sent) _ _
        (λ all. record {
          partly = p;
          reason =
              all_sent (ground (arith, all, p.fits, b.measured))
                (resumes os stream full bytes before a c);
        })
        (λ more.
          send-After (send_rounds os fuel) a r k b p c
            (stream.in_order (drop a.sent a.buf) a.kernel
              ∙ ap (λ x. stream.written a.kernel ++ take (number_of r) x) rest)
            (subst (λ x. number_of r ≤ length x) rest (stream.at_most (drop a.sent a.buf) a.kernel))
            refl (λ a' b' p' c' grew. send_rounds-After fuel a' b' p' c' (omega (arith, l, grew))))
