-- ===== src/StreamSocket/Send/Settling.antt =====
-- One attempt of a write settles it.
use co_wq.Prelude.{
  ℕ, zero, suc, ◌+◌, ◌-◌, ◌≡◌, refl, ◌⊎◌, inl, inr, Bool, true, false, drop, if◌then◌else◌, leb,
  ◌==◌,
}
use co_wq.Serial.{
  Attempt, progress, complete, would_block, Drain, Call, returned, after_attempt, lock_acquired_cb,
  drive_cb,
}
use co_wq.Serial.Draining.{Completed, Waiting}
use co_wq.StreamSocket.{Errno, Sent, took, not_took, Kernel, is_again}
use co_wq.StreamSocket.Send.{
  SendAwaiter, total, advance_iov, is_empty, not_sent, after_send, after_writev, send_rounds,
  writev_rounds, send_attempt_once,
}

-- An attempt runs its loop to the end, so it never asks for another one, and waits only with `full`.
abbrev Settles : {K : Type 0} → Bool → Attempt × SendAwaiter K → Type 0
Settles full x = (x.0 ≡ complete) ⊎ ((x.0 ≡ would_block) × (full ≡ true))

-- What a call of the loop comes to.
pub record Answered {A : Type 0} (full first : Bool) (d : Drain A) (call : Call A) : Type 0 where
  pub after : Drain A
  pub result : call ≡ returned after
  pub outcome : Completed d after ⊎ (Waiting first d after × (full ≡ true))

module _ {K : Type 0} (os : Kernel K) where
  if-Settles :
      (full b : Bool) (x y : Attempt × SendAwaiter K)
      → Settles full x
      → Settles full y
      → Settles full (if b then x else y)
  if-Settles full true x y f g = f
  if-Settles full false x y f g = g

  answers :
      (full : Bool) (a : SendAwaiter K) → Settles full (if full then would_block else complete, a)
  answers true a = inr (refl, refl)
  answers false a = inl refl

  not_sent-Settles : (a : SendAwaiter K) (e : Errno) → Settles a.full (not_sent os a e)
  unfolding not_sent
  not_sent-Settles a e = if-Settles a.full (is_again e) _ _ (answers a.full a) (inl refl)

  after_send-Settles :
      (again : SendAwaiter K → Attempt × SendAwaiter K) (a : SendAwaiter K) (r : Sent)
      → ((a' : SendAwaiter K) → Settles a'.full (again a'))
      → Settles a.full (after_send os again a r)
  unfolding after_send
  after_send-Settles again a (took zero) f = inl refl
  after_send-Settles again a (took (suc n)) f =
      let a' = record a { sent = a.sent + suc n } in
      if-Settles a.full (a'.sent == a'.len) _ _ (inl refl) (f a')
  after_send-Settles again a (not_took e) f = not_sent-Settles a e

  after_writev-Settles :
      (again : SendAwaiter K → Attempt × SendAwaiter K) (a : SendAwaiter K) (r : Sent)
      → ((a' : SendAwaiter K) → Settles a'.full (again a'))
      → Settles a.full (after_writev os again a r)
  unfolding after_writev
  after_writev-Settles again a (took zero) f = inl refl
  after_writev-Settles again a (took (suc n)) f =
      let a' = record a { sent = a.sent + suc n; vec = advance_iov (suc n) a.vec } in
      if-Settles a.full (is_empty a'.vec) _ _ (inl refl) (f a')
  after_writev-Settles again a (not_took e) f = not_sent-Settles a e

  send_rounds-Settles : (fuel : ℕ) (a : SendAwaiter K) → Settles a.full (send_rounds os fuel a)
  unfolding send_rounds
  send_rounds-Settles zero a = inl refl
  send_rounds-Settles (suc fuel) a =
      let (r, k) = os.send (drop a.sent a.buf) a.kernel in
      if-Settles a.full (leb a.len a.sent) _ _ (inl refl) (
        after_send-Settles (send_rounds os fuel) (record a { kernel = k }) r
          (send_rounds-Settles fuel))

  writev_rounds-Settles : (fuel : ℕ) (a : SendAwaiter K) → Settles a.full (writev_rounds os fuel a)
  unfolding writev_rounds
  writev_rounds-Settles zero a = inl refl
  writev_rounds-Settles (suc fuel) a =
      let (r, k) = os.writev a.vec a.kernel in
      if-Settles a.full (is_empty a.vec) _ _ (inl refl) (
        after_writev-Settles (writev_rounds os fuel) (record a { kernel = k }) r
          (writev_rounds-Settles fuel))

  attempt-Settles : (a : SendAwaiter K) → Settles a.full (send_attempt_once os a)
  unfolding send_attempt_once
  attempt-Settles a =
      if-Settles a.full a.use_vec _ _ (writev_rounds-Settles (suc (total a.vec)) a)
        (send_rounds-Settles (a.len - a.sent) a)

  only : {full : Bool} (work : SendAwaiter K) → Settles full (would_block, work) → full ≡ true
  only work s = elim s [ inl c ↦ cc | inr w ↦ w.1 ]

  settled :
      (first full : Bool) (d : Drain (SendAwaiter K)) (r : Attempt) (work : SendAwaiter K)
      (again : Call (SendAwaiter K))
      → Settles full (r, work)
      → Answered full first d
          (after_attempt (send_attempt_once os) first r (record d { work = work }) again)
  settled first full d progress work again s = elim s [ inl c ↦ cc | inr w ↦ cc ]
  settled first full d complete work again s = record {
    after = _;
    result = refl;
    outcome = inl (record { func = refl; resumes = refl; slot = refl; waits = refl });
  }
  settled first full d would_block work again s = record {
    after = _;
    result = refl;
    outcome = inr (record { func = refl; resumes = refl; slot = refl; waits = refl }, only work s);
  }

  -- One attempt of a write settles its turn, with fuel for one attempt: the call returns, and either it
  -- completes the write once and gives the turn on, or, only where all bytes were asked for, it keeps the
  -- turn and registers for one event. So a write without `full` never waits.
  pub send_attempt_once-Answered :
      (fuel : ℕ) (d : Drain (SendAwaiter K))
      → Answered d.work.full true d (lock_acquired_cb (send_attempt_once os) (suc fuel) d)
        × Answered d.work.full false d (drive_cb (send_attempt_once os) (suc fuel) d)
  unfolding lock_acquired_cb drive_cb
  send_attempt_once-Answered fuel d =
      let s = attempt-Settles d.work in
      (
        settled true d.work.full d (send_attempt_once os d.work).0 (send_attempt_once os d.work).1 _
            s,
        settled false d.work.full d (send_attempt_once os d.work).0 (send_attempt_once os d.work).1
            _ s,
      )
