-- ===== src/Tls/Socket.antt =====
-- net/tls.hpp: closing and shutting down a `tls_socket`, over the socket of its transport.
use co_wq.Prelude.{Bool, true, false, not, ◌&&◌, List, [], ◌∷◌, ◌++◌, if◌then◌else◌}
use co_wq.EpollReactor.{Epoll}
use co_wq.StreamSocket.Core.{SocketCore, close, shutdown_tx}

-- The calls of OpenSSL that end the use of the `SSL` object: `SSL_shutdown`, and `SSL_free` by `_ssl.reset()`.
pub data SslCall : Type 0 where
  ssl_shutdown ssl_free : SslCall

-- `has_ssl` tells whether `_ssl` is not null. `ssl_calls` is the log of those calls.
pub record TlsSocket (K : Type 0) : Type 0 where
  pub active : Bool
  pub has_ssl : Bool
  pub handshake_done : Bool
  pub rx_eof : Bool
  pub tx_shutdown : Bool
  pub transport : SocketCore K
  pub ssl_calls : List SslCall

-- The constructor, where `SSL_new` succeeds; else it throws.
unfoldable pub tls_socket : {K : Type 0} → SocketCore K → TlsSocket K
tls_socket transport = record {
  active = true;
  has_ssl = true;
  handshake_done = false;
  rx_eof = false;
  tx_shutdown = false;
  transport = transport;
  ssl_calls = [];
}

abbrev pub free_ssl : {K : Type 0} → TlsSocket K → TlsSocket K
free_ssl s =
    if s.has_ssl
    then record s { has_ssl = false; ssl_calls = s.ssl_calls ++ ssl_shutdown ∷ ssl_free ∷ [] }
    else s

abbrev pub shutdown_ssl : {K : Type 0} → TlsSocket K → TlsSocket K
shutdown_ssl s =
    if s.has_ssl && not s.tx_shutdown
    then record s { tx_shutdown = true; ssl_calls = s.ssl_calls ++ ssl_shutdown ∷ [] }
    else s

module _ {K : Type 0} (os : Epoll K) where
  unfoldable pub close_tls : TlsSocket K → TlsSocket K
  close_tls s =
      if not s.active
      then s
      else let freed = free_ssl s in
        record freed {
          transport = close os freed.transport;
          handshake_done = false;
          rx_eof = true;
          tx_shutdown = true;
        }

unfoldable pub shutdown_tls : {K : Type 0} → TlsSocket K → TlsSocket K
shutdown_tls s =
    if not s.active
    then s
    else let shut = shutdown_ssl s in record shut { transport = shutdown_tx shut.transport }

-- What the awaiters set on the socket.
unfoldable pub finish_handshake : {K : Type 0} → TlsSocket K → TlsSocket K
finish_handshake s = record s { handshake_done = true }

unfoldable pub reach_eof : {K : Type 0} → TlsSocket K → TlsSocket K
reach_eof s = record s { rx_eof = true }

unfoldable pub end_sending : {K : Type 0} → TlsSocket K → TlsSocket K
end_sending s = record s { tx_shutdown = true }
