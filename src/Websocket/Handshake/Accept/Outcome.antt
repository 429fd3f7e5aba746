-- ===== src/Websocket/Handshake/Accept/Outcome.antt =====
-- What `accept` promises: whom it accepts, and that it closes the socket when it refuses.
use co_wq.Prelude.{◌≡◌, ◌⊎◌, true, false, [], codes}
use co_wq.Websocket.Socket.{Socket}
use co_wq.Websocket.Header.{to_lower, same}
use co_wq.Websocket.Handshake.{Text, ServerOptions, AcceptResult}
use co_wq.Websocket.Handshake.Accept.{
  upgrade_headers, origin_ok, selected_proto, switching_response, accept_key_of,
}

module _ {S : Type 0} (sock : Socket S) (digest : Text → Text) (opts : ServerOptions) where
  -- The request is an upgrade from an allowed origin, and the last that was sent is the answer to it.
  pub record Accepted (result : AcceptResult) (final : S) : Type 0 where
    pub get : same (to_lower result.request.method) (codes "get") ≡ true
    pub upgrade : upgrade_headers result.request ≡ true
    pub origin : origin_ok opts result.request ≡ true
    pub status : result.status_code ≡ 101
    pub proto : result.selected_subprotocol ≡ selected_proto opts result.request
    pub before : S
    pub answered :
        sock.send_all
          (switching_response (accept_key_of digest result.request) result.selected_subprotocol)
          before
        ≡ (true, final)

  -- A refusal is not ok, selects no subprotocol, and closes the socket last if the options ask for it.
  pub record Refused (result : AcceptResult) (final : S) : Type 0 where
    pub refused : result.ok ≡ false
    pub proto : result.selected_subprotocol ≡ []
    pub before : S
    pub closed : opts.close_on_failure ≡ true → final ≡ sock.close before

  -- The two ways in which a handshake ends.
  abbrev pub Outcome : AcceptResult × S → Type 0
  Outcome (result, final) = ((result.ok ≡ true) × Accepted result final) ⊎ Refused result final
