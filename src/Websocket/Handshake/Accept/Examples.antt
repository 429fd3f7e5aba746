-- ===== src/Websocket/Handshake/Accept/Examples.antt =====
-- The handshake at concrete inputs: a parser that reads a whole request from any input, as a client
-- that asks for an upgrade sends it, and one that asks with `POST`.
use co_wq.Prelude.{ℕ, ◌≡◌, refl, true, false, Bool, Option, some, none, List, [], ◌∷◌, codes, ◌++◌}
use co_wq.Websocket.Socket.{Socket, got}
use co_wq.Websocket.Header.{
  to_lower, trim, trim_begin, trim_end, connection_contains_upgrade, upgrade_loop, find_comma,
}
use co_wq.Websocket.Handshake.{
  Text, HttpEvent, on_message_begin, on_method, on_header_field, on_header_value,
  on_header_value_complete, on_headers_complete, on_message_complete, hpe_ok, HttpParser,
  ServerOptions, AcceptResult, on_event, set_header, find_header, reset,
}
use co_wq.Websocket.Handshake.Accept.{
  accept, after_reading, read_request, on_recv, on_execute, on_request, on_sent, reject, refuse,
  upgrade_headers, origin_ok, accept_key_of, compute_accept_key,
}
use co_wq.Websocket.Handshake.Accept.Outcome.{Outcome}

abbrev header : Text → Text → List HttpEvent → List HttpEvent
header field value events =
    on_header_field field ∷ on_header_value value ∷ on_header_value_complete ∷ events

abbrev request_events : Text → List HttpEvent
request_events method =
    on_message_begin
    ∷ on_method method
    ∷ header (codes "Upgrade") (codes "WebSocket") (
        header (codes "Connection") (codes "keep-alive, Upgrade") (
          header (codes "Sec-WebSocket-Version") (codes "13") (
            header (codes "Sec-WebSocket-Key") (codes "abc")
              (on_headers_complete ∷ on_message_complete ∷ []))))

abbrev one_request : Text → HttpParser ℕ
one_request method = record {
  llhttp_init = 0;
  llhttp_execute = λ input p. (request_events method, (hpe_ok, 1));
}

abbrev defaults : ServerOptions
defaults = record {
  subprotocols = [];
  allowed_origins = [];
  check_origin = false;
  close_on_failure = true;
  max_request_size = 16384;
}

abbrev digest : Text → Text
digest key = codes "digest"

-- A peer that always sends more, and what it sees of the server.
record Peer : Type 0 where
  received : List ℕ
  closed : Bool

abbrev peer : Socket Peer
peer = record {
  recv = λ n p. (got (71 ∷ []), p);
  send_all = λ bs p. (true, record p { received = p.received ++ bs });
  close = λ p. record p { closed = true };
}

abbrev fresh : Peer
fresh = record { received = []; closed = false }

abbrev shaken : Text → Option (AcceptResult × Peer)
shaken method = accept (one_request method) peer digest defaults fresh

abbrev outcome_of : Option (AcceptResult × Peer) → Bool × (ℕ × Bool)
outcome_of none = (false, (0, false))
outcome_of (some (r, p)) = (r.ok, (r.status_code, p.closed))

upgraded : outcome_of (shaken (codes "GET")) ≡ (true, (101, false))
unfolding accept after_reading read_request on_recv on_execute on_event set_header find_header
    on_request on_sent upgrade_headers origin_ok accept_key_of compute_accept_key
    connection_contains_upgrade upgrade_loop find_comma trim trim_begin trim_end to_lower reset
    reject refuse
upgraded = refl

posted : outcome_of (shaken (codes "POST")) ≡ (false, (405, true))
unfolding accept after_reading read_request on_recv on_execute on_event set_header find_header
    on_request on_sent upgrade_headers origin_ok accept_key_of compute_accept_key
    connection_contains_upgrade upgrade_loop find_comma trim trim_begin trim_end to_lower reset
    reject refuse
posted = refl
