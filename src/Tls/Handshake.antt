-- ===== src/Tls/Handshake.antt =====
-- net/tls.hpp: `handshake_awaiter`, and its life from `await_suspend` through the events of the reactor.
use co_wq.Prelude.{
  ℕ, suc, ◌≡◌, refl, ap, ◌∙◌, Bool, true, false, List, [], ◌∷◌, ◌++◌, ◌==◌, if◌then◌else◌, length,
  length-append, arith,
}
use co_wq.EpollReactor.{epollin, epollout}
use co_wq.Tls.{
  ssl_error_want_read, econnreset, Failure, SslHandshake, done, not_done, Ssl, translate_failure,
  wants, mask_of, Result, count, negative,
}

-- `waits` are the masks of the calls of `add_waiter_custom`, `resumes` counts the calls of `h.resume()`.
-- `handshake_done` is the socket's flag.
pub record HandshakeAwaiter (K : Type 0) : Type 0 where
  pub handshake_done : Bool
  pub result : ℕ
  pub waits : List ℕ
  pub resumes : ℕ
  pub ssl : K

abbrev pub handshake_failed : {K : Type 0} → HandshakeAwaiter K → Failure → HandshakeAwaiter K
handshake_failed h f =
    if wants f.ssl_err
    then record h { waits = h.waits ++ mask_of f.ssl_err ∷ [] }
    else record h { result = translate_failure f; resumes = suc h.resumes }

abbrev pub on_handshake : {K : Type 0} → HandshakeAwaiter K → SslHandshake → HandshakeAwaiter K
on_handshake h done = record h { handshake_done = true; resumes = suc h.resumes }
on_handshake h (not_done f) = handshake_failed h f

module _ {K : Type 0} (os : Ssl K) where
  -- `drive`. No path of its loop comes to a second round.
  unfoldable pub drive : HandshakeAwaiter K → HandshakeAwaiter K
  drive h =
      let (r, k) = os.ssl_do_handshake h.ssl in
      if h.handshake_done
      then record h { resumes = suc h.resumes }
      else on_handshake (record h { ssl = k }) r

-- `handshake()` on a socket.
unfoldable pub handshake : {K : Type 0} → Bool → K → HandshakeAwaiter K
handshake handshake_done k = record {
  handshake_done = handshake_done;
  result = 0;
  waits = [];
  resumes = 0;
  ssl = k;
}

unfoldable pub handshake_await_resume : {K : Type 0} → HandshakeAwaiter K → Result
handshake_await_resume h =
    if h.handshake_done then count 0 else negative (if h.result == 0 then econnreset else h.result)

-- `Driving os k events h`: the awaiter was suspended with OpenSSL in the state `k`, and the reactor has
-- called it for that many events, each when it was registered.
pub data Driving {K : Type 0} (os : Ssl K) (k : K) : ℕ → HandshakeAwaiter K → Type 0 where
  suspended : Driving os k 0 (drive os (handshake false k))
  called_again :
      {events : ℕ} {h : HandshakeAwaiter K}
      → Driving os k events h
      → h.resumes ≡ 0
      → Driving os k (suc events) (drive os h)

-- The last call of OpenSSL, which left it as it is, returned `r`.
abbrev pub LastHandshake : {K : Type 0} → Ssl K → HandshakeAwaiter K → SslHandshake → Type 0
LastHandshake {K = K} os h r = (k : K) × (os.ssl_do_handshake k ≡ (r, h.ssl))

-- The direction in which OpenSSL asks to wait.
abbrev pub direction : ℕ → ℕ
direction ssl_err = if ssl_err == ssl_error_want_read then epollin else epollout

-- What the handshake has come to after `events` events: it waits for one more, in the direction that OpenSSL asked
-- for last, or its coroutine was resumed.
pub data Stage {K : Type 0} (os : Ssl K) (events : ℕ) (h : HandshakeAwaiter K) : Type 0 where
  waits :
      (masks : List ℕ) (f : Failure)
      → h.resumes ≡ 0
      → h.handshake_done ≡ false
      → LastHandshake os h (not_done f)
      → wants f.ssl_err ≡ true
      → h.waits ≡ masks ++ direction f.ssl_err ∷ []
      → length h.waits ≡ suc events
      → Stage os events h
  succeeded :
      LastHandshake os h done
      → h.resumes ≡ 1
      → h.handshake_done ≡ true
      → length h.waits ≡ events
      → handshake_await_resume h ≡ count 0
      → Stage os events h
  failed :
      (f : Failure)
      → h.resumes ≡ 1
      → h.handshake_done ≡ false
      → length h.waits ≡ events
      → LastHandshake os h (not_done f)
      → wants f.ssl_err ≡ false
      → handshake_await_resume h
        ≡ negative (if translate_failure f == 0 then econnreset else translate_failure f)
      → Stage os events h

module _ {K : Type 0} (os : Ssl K) where
  if-Stage :
      (n : ℕ) (b : Bool) (x y : HandshakeAwaiter K)
      → (b ≡ true → Stage os n x)
      → (b ≡ false → Stage os n y)
      → Stage os n (if b then x else y)
  if-Stage n true x y f g = f refl
  if-Stage n false x y f g = g refl

  answered :
      (n : ℕ) (h : HandshakeAwaiter K) (r : SslHandshake)
      → LastHandshake os h r
      → h.resumes ≡ 0
      → h.handshake_done ≡ false
      → length h.waits ≡ n
      → Stage os n (on_handshake h r)
  unfolding handshake_await_resume
  answered n h done last z d l = succeeded last (ap suc z) refl l refl
  answered n h (not_done f) last z d l =
      if-Stage n (wants f.ssl_err) _ _
        (λ again.
          waits h.waits f z d last again refl
            (length-append h.waits (mask_of f.ssl_err ∷ []) ∙ omega (arith, l)))
        (λ fails. failed f (ap suc z) d l last fails (
          ap
            (λ b.
              if b
              then count 0
              else negative (if translate_failure f == 0 then econnreset else translate_failure f))
            d))

  driven :
      (n : ℕ) (h : HandshakeAwaiter K)
      → h.resumes ≡ 0
      → h.handshake_done ≡ false
      → length h.waits ≡ n
      → Stage os n (drive os h)
  unfolding drive
  driven n h z d l =
      let (r, k) = os.ssl_do_handshake h.ssl in
      if-Stage n h.handshake_done _ _ (λ e. cc)
        (λ e.
          answered n (record h { ssl = (os.ssl_do_handshake h.ssl).1 })
            (os.ssl_do_handshake h.ssl).0 (h.ssl, refl) z d l)

  next-Stage :
      (n : ℕ) (h : HandshakeAwaiter K)
      → Stage os n h
      → h.resumes ≡ 0
      → Stage os (suc n) (drive os h)
  next-Stage n h (waits masks f z d c w m l) e = driven (suc n) h z d l
  next-Stage n h (succeeded c r d l v) e = cc
  next-Stage n h (failed f r d l c w v) e = cc

  -- A handshake that was suspended, after any number of events. Each event is one call of OpenSSL. Either it waits,
  -- registered in the direction that OpenSSL asked for, not resumed; or its coroutine was resumed, once,
  -- with 0 if OpenSSL has finished the handshake, and else with the translation of the failure, or with
  -- `-ECONNRESET` where that is 0.
  pub drive-Stage :
      (k : K) (events : ℕ) (h : HandshakeAwaiter K) → Driving os k events h → Stage os events h
  unfolding handshake
  drive-Stage k events h suspended = driven 0 (handshake false k) refl refl refl
  drive-Stage k events h (called_again {events = n} {h = g} life z) =
      next-Stage n g (drive-Stage k n g life) z
