-- ===== src/Websocket/Handshake/Accept.antt =====
-- net/websocket.hpp: `accept`, the server's handshake. The digest of OpenSSL with its Base64 text is
-- a parameter, and gives the empty text where it fails.
pub mod Rounds
pub mod Outcome
mod Examples
use co_wq.Prelude.{
  ℕ, zero, suc, ◌+◌, Bool, true, false, not, ◌&&◌, ◌||◌, Option, none, some, List, [], ◌∷◌, ◌++◌,
  ltb, if◌then◌else◌, length, codes,
}
use co_wq.Websocket.Socket.{Socket, Recv, got, failed}
use co_wq.Websocket.Header.{
  to_lower, trim, same, connection_contains_upgrade, parse_header_csv, pick_subprotocol,
}
use co_wq.Websocket.Handshake.{
  Text, is_empty, HttpRequestContext, reset, find_header, on_events, Errno, hpe_ok,
  hpe_paused_upgrade, hpe, HttpEvent, HttpParser, ServerOptions, AcceptResult, build_http_response,
}

-- How the loop that reads the request ends: `ctx.message_complete`, or `parse_error` with the status, the
-- reason and `client_closed_early`. `running` is the model's, for fuel that ran out.
pub data Reading : Type 0 where
  complete running : Reading
  parse_error : (status_code : ℕ) → (reason : Text) → (client_closed_early : Bool) → Reading

-- The locals of the loop with the socket's state.
pub record Reader (P S : Type 0) : Type 0 where
  pub ctx : HttpRequestContext
  pub parser : P
  pub total_bytes : ℕ
  pub state : S

module _ {P S : Type 0} (http : HttpParser P) (sock : Socket S) (opts : ServerOptions) where
  pub on_execute :
      (Reader P S → Reading × Reader P S)
      → Reader P S
      → List HttpEvent × (Errno × P)
      → Reading × Reader P S
  on_execute next r (events, (hpe_ok, parser)) =
      next (record r { ctx = on_events events r.ctx; parser = parser })
  on_execute next r (events, (hpe_paused_upgrade, parser)) = (
    complete,
    record r { ctx = record (on_events events r.ctx) { message_complete = true }; parser = parser },
  )
  on_execute next r (events, (hpe name, parser)) =
      (parse_error 400 name false, record r { ctx = on_events events r.ctx; parser = parser })

  pub on_recv : (Reader P S → Reading × Reader P S) → Reader P S → Recv × S → Reading × Reader P S
  on_recv next r (failed n, s) =
      (parse_error 500 (codes "socket read error") false, record r { state = s })
  on_recv next r (got [], s) =
      (parse_error 0 (codes "client closed connection") true, record r { state = s })
  on_recv next r (got (b ∷ bs), s) =
      let read = record r {
        ctx = record r.ctx { raw_data = r.ctx.raw_data ++ b ∷ bs };
        total_bytes = r.total_bytes + length (b ∷ bs);
        state = s;
      } in
      if ltb opts.max_request_size read.total_bytes
      then (parse_error 431 (codes "request header too large") false, read)
      else on_execute next read (http.llhttp_execute (b ∷ bs) r.parser)

  pub read_request : ℕ → Reader P S → Reading × Reader P S
  read_request zero r = (running, r)
  read_request (suc fuel) r =
      let next = on_recv (read_request fuel) r (sock.recv 4096 r.state) in
      if r.ctx.message_complete then (complete, r) else next

module _ {S : Type 0} (sock : Socket S) (opts : ServerOptions) where
  -- A result that is not ok, its response if there is one, and `close` if asked for.
  pub reject : ℕ → Text → Option Text → Bool → HttpRequestContext → S → AcceptResult × S
  reject status_code reason response close request s =
      let sent : S = elim response [ none ↦ s | some r ↦ (sock.send_all r s).1 ] in
      (
        record {
          ok = false;
          status_code = status_code;
          reason = reason;
          selected_subprotocol = [];
          request = request;
        },
        if close then sock.close sent else sent,
      )

  -- `reject` with a response of the same status.
  pub refuse : ℕ → Text → Text → HttpRequestContext → S → AcceptResult × S
  refuse status_code reason body request s =
      reject status_code reason (some (build_http_response status_code reason body))
        opts.close_on_failure request s

  -- Only an error of llhttp, with status 400, may come with an empty reason.
  pub on_parse_error : ℕ → Text → Bool → HttpRequestContext → S → AcceptResult × S
  on_parse_error status_code reason early request s =
      let body = if is_empty reason then codes "incomplete request" else reason in
      let said = if is_empty reason then codes "Bad Request" else reason in
      reject status_code said
        (if early
          then none
          else some (
              build_http_response status_code said
                (codes "WebSocket handshake failed: " ++ body ++ codes "\n")))
        (opts.close_on_failure || early) request s

abbrev pub has_value : Option Text → (Text → Bool) → Bool
has_value none test = false
has_value (some v) test = test v

abbrev pub header_is : HttpRequestContext → Text → (Text → Bool) → Bool
header_is request key test = has_value (find_header key request.headers) test

-- The four headers that an upgrade needs.
pub upgrade_headers : HttpRequestContext → Bool
upgrade_headers request =
    header_is request (codes "upgrade") (λ v. same (to_lower v) (codes "websocket"))
    && header_is request (codes "connection") connection_contains_upgrade
    && header_is request (codes "sec-websocket-version") (λ v. same (trim v) (codes "13"))
    && header_is request (codes "sec-websocket-key") (λ v. true)

abbrev pub any_origin : Text → List Text → Bool
any_origin origin [] = false
any_origin origin (allowed ∷ more) =
    if same (to_lower origin) (to_lower allowed) then true else any_origin origin more

pub origin_ok : ServerOptions → HttpRequestContext → Bool
origin_ok opts request =
    if opts.check_origin && not (is_empty opts.allowed_origins)
    then header_is request (codes "origin") (λ v. any_origin v opts.allowed_origins)
    else true

abbrev pub value_or_empty : Option Text → Text
value_or_empty none = []
value_or_empty (some v) = v

abbrev protocols : Option Text → List Text
protocols none = []
protocols (some v) = parse_header_csv v

pub selected_proto : ServerOptions → HttpRequestContext → Text
selected_proto opts request =
    let client = protocols (find_header (codes "sec-websocket-protocol") request.headers) in
    if not (is_empty opts.subprotocols) && not (is_empty client)
    then pick_subprotocol client opts.subprotocols
    else []

pub switching_response : Text → Text → Text
switching_response accept_key proto =
    codes "HTTP/1.1 101 Switching Protocols\r\n"
    ++ codes "Upgrade: websocket\r\n"
    ++ codes "Connection: Upgrade\r\n"
    ++ codes "Sec-WebSocket-Accept: "
    ++ accept_key
    ++ codes "\r\n"
    ++ (if is_empty proto then [] else codes "Sec-WebSocket-Protocol: " ++ proto ++ codes "\r\n")
    ++ codes "\r\n"

-- `compute_accept_key`, with the digest as `digest`.
pub compute_accept_key : (Text → Text) → Text → Text
compute_accept_key digest client_key =
    digest (client_key ++ codes "258EAFA5-E914-47DA-95CA-C5AB0DC85B11")

pub accept_key_of : (Text → Text) → HttpRequestContext → Text
accept_key_of digest request =
    compute_accept_key digest
      (value_or_empty (find_header (codes "sec-websocket-key") request.headers))

module _ {S : Type 0} (sock : Socket S) (digest : Text → Text) (opts : ServerOptions) where
  pub on_sent : HttpRequestContext → Bool × S → AcceptResult × S
  on_sent request (false, s) =
      reject sock opts 500 (codes "Socket Error") none opts.close_on_failure request s
  on_sent request (true, s) = (
    record {
      ok = true;
      status_code = 101;
      reason = codes "Switching Protocols";
      selected_subprotocol = selected_proto opts request;
      request = request;
    },
    s,
  )

  pub on_request : HttpRequestContext → S → AcceptResult × S
  on_request request s =
      if not (same (to_lower request.method) (codes "get"))
      then refuse sock opts 405 (codes "Method Not Allowed") (codes "WebSocket requires GET\n")
          request s
      else if not (upgrade_headers request)
      then refuse sock opts 400 (codes "Bad Request")
          (codes "Missing or invalid WebSocket headers\n") request s
      else if not (origin_ok opts request)
      then refuse sock opts 403 (codes "Forbidden") (codes "Origin not allowed\n") request s
      else if is_empty (accept_key_of digest request)
      then refuse sock opts 500 (codes "Internal Server Error")
          (codes "Failed to compute accept key\n") request s
      else on_sent request (
          sock.send_all
            (switching_response (accept_key_of digest request) (selected_proto opts request)) s)

module _ {P S : Type 0} (http : HttpParser P) (sock : Socket S) (digest : Text → Text)
    (opts : ServerOptions) where
  -- `none` is the model's, for fuel that ran out.
  pub after_reading : Reading × Reader P S → Option (AcceptResult × S)
  after_reading (complete, r) = some (on_request sock digest opts r.ctx r.state)
  after_reading (running, r) = none
  after_reading (parse_error status_code reason early, r) =
      some (on_parse_error sock opts status_code reason early r.ctx r.state)

  -- Every round receives a byte at least, so one more than the largest request is enough, and a
  -- round that finds the request complete.
  pub accept : S → Option (AcceptResult × S)
  accept s = after_reading (
      read_request http sock opts (suc (suc opts.max_request_size))
        (record { ctx = reset; parser = http.llhttp_init; total_bytes = 0; state = s }))
