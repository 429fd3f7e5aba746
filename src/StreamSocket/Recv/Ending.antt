-- ===== src/StreamSocket/Recv/Ending.antt =====
-- The loop of a read ends.
use co_wq.Prelude.{
  ℕ, ◌-◌, ◌<◌, ◌≡◌, refl, Bool, true, false, not, ◌&&◌, [], ◌∷◌, leb, ltb, if◌then◌else◌, length,
  length-append, arith,
}
use co_wq.Serial.{Attempt, progress, complete, would_block, Drain, lock_acquired_cb, drive_cb}
use co_wq.Serial.Draining.{Finite, Ends, lock_acquired_cb-Ends, drive_cb-Ends}
use co_wq.StreamSocket.{Received, got, not_got, Kernel, is_again}
use co_wq.StreamSocket.Recv.{RecvAwaiter, on_received, recv_attempt_once}

module _ {K : Type 0} (os : Kernel K) where
  abbrev pub left : RecvAwaiter K → ℕ
  left a = a.len - length a.buf

  if-less :
      (b : Bool) (x y : Attempt × RecvAwaiter K) (m : ℕ)
      → (b ≡ true → x.0 ≡ progress → left x.1 < m)
      → (b ≡ false → y.0 ≡ progress → left y.1 < m)
      → (if b then x else y).0 ≡ progress
      → left (if b then x else y).1 < m
  if-less true x y m f g p = f refl p
  if-less false x y m f g p = g refl p

  not_progress : (b : Bool) → (if b then complete else would_block) ≡ progress → ⊥
  not_progress true p = cc
  not_progress false p = cc

  on_received-less :
      (a : RecvAwaiter K) (r : Received)
      → length a.buf < a.len
      → (on_received os a r).0 ≡ progress
      → left (on_received os a r).1 < left a
  unfolding on_received
  on_received-less a (got (b ∷ bs)) l p =
      let grown = length-append a.buf (b ∷ bs) in ground (arith, grown, l)
  on_received-less a (got []) l p = cc
  on_received-less a (not_got e) l p =
      if-less (is_again e) _ _ _
        (λ again p. absurd (not_progress (not a.full && ltb 0 (length a.buf)) p)) (λ fails. cc) p

  recv_attempt_once-less :
      (a : RecvAwaiter K)
      → (recv_attempt_once os a).0 ≡ progress
      → left (recv_attempt_once os a).1 < left a
  unfolding recv_attempt_once
  recv_attempt_once-less a p =
      let (r, k) = os.recv (a.len - length a.buf) a.kernel in
      if-less (leb a.len (length a.buf)) _ _ _ (λ all. cc)
        (λ more. on_received-less (record a { kernel = k }) r (ground (arith, more))) p

  pub recv_attempt_once-Finite : Finite (recv_attempt_once os)
  recv_attempt_once-Finite = record { left = left; less = recv_attempt_once-less }

  -- A call of a read's loop returns once it has more fuel than bytes still to come: `lock_acquired_cb` when
  -- the read gets its turn, and `drive_cb` after an event. It completes the operation once, or registers
  -- for one event.
  pub recv_attempt_once-Ends :
      (fuel : ℕ) (d : Drain (RecvAwaiter K))
      → d.work.len - length d.work.buf < fuel
      → Ends true d (lock_acquired_cb (recv_attempt_once os) fuel d)
        × Ends false d (drive_cb (recv_attempt_once os) fuel d)
  unfolding recv_attempt_once-Finite
  recv_attempt_once-Ends fuel d l = (
    lock_acquired_cb-Ends (recv_attempt_once os) recv_attempt_once-Finite fuel d l,
    drive_cb-Ends (recv_attempt_once os) recv_attempt_once-Finite fuel d l,
  )
