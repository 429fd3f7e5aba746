-- ===== src/Tls/Ending.antt =====
-- The calls that end a TLS socket, over any use of it.
use co_wq.Prelude.{ℕ, ◌≡◌, refl, ap, ◌⊎◌, inl, inr, Bool, true, false, List, [], ◌∷◌, ◌++◌}
use co_wq.EpollReactor.{Epoll, EpollReactor}
use co_wq.StreamSocket.Core.Calls.{HasCalls}
use co_wq.Tls.Socket.{
  SslCall, ssl_shutdown, ssl_free, TlsSocket, shutdown_ssl, close_tls, shutdown_tls,
  finish_handshake, reach_eof, end_sending,
}

-- What an owner and the awaiters of a TLS socket may do to it.
pub data TlsUse : Type 0 where
  closes_tls shuts_down_tls finishes_handshake reaches_eof ends_sending : TlsUse

-- The calls so far: while there is an `SSL` object, at most one shutdown, and that only with the flag set; and once
-- it is freed, that at most, one more shutdown, and the freeing.
abbrev pub SslCalls : Bool → Bool → List SslCall → Type 0
SslCalls true shut l = (l ≡ []) ⊎ ((l ≡ ssl_shutdown ∷ []) × (shut ≡ true))
SslCalls false shut l =
    (l ≡ ssl_shutdown ∷ ssl_free ∷ []) ⊎ (l ≡ ssl_shutdown ∷ ssl_shutdown ∷ ssl_free ∷ [])

pub record HasTlsCalls {K : Type 0} (fd : ℕ) (s : TlsSocket K) : Type 0 where
  pub on_ssl : SslCalls s.has_ssl s.tx_shutdown s.ssl_calls
  pub on_fd : HasCalls fd s.transport

shut :
    {K : Type 0} (b shut : Bool) (s : TlsSocket K)
    → s.has_ssl ≡ b
    → s.tx_shutdown ≡ shut
    → SslCalls b shut s.ssl_calls
    → SslCalls (shutdown_ssl s).has_ssl (shutdown_ssl s).tx_shutdown (shutdown_ssl s).ssl_calls
shut true true s e f k = rw (e, f) k
shut true false s e f k =
    rw (e, f)
      (elim k [
        | inl none_yet ↦ inr (ap (λ m. m ++ ssl_shutdown ∷ []) none_yet, refl)
        | inr once ↦ (let on = once.1 in cc)
      ])
shut false t s e f k = rw e k

module _ {K : Type 0} (os : Epoll K) where
  pub use_tls : TlsUse → TlsSocket K → TlsSocket K
  use_tls closes_tls s = close_tls os s
  use_tls shuts_down_tls s = shutdown_tls s
  use_tls finishes_handshake s = finish_handshake s
  use_tls reaches_eof s = reach_eof s
  use_tls ends_sending s = end_sending s

  pub use_tls_all : List TlsUse → TlsSocket K → TlsSocket K
  use_tls_all [] s = s
  use_tls_all (u ∷ us) s = use_tls_all us (use_tls u s)
