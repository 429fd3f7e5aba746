-- ===== src/Websocket/Handshake/Accept/Rounds.antt =====
-- The loop that reads the request ends on every socket and for every parser.
use co_wq.Prelude.{
  ℕ, zero, suc, ◌+◌, ◌≤◌, ◌<◌, ◌≡◌, refl, inl, inr, ◌≢◌, Bool, true, false, some, List, [], ◌∷◌,
  ◌++◌, ltb, if◌then◌else◌, length, Bool-cases, arith,
}
use co_wq.Websocket.Socket.{Socket, Recv, got, failed}
use co_wq.Websocket.Handshake.{
  Text, on_events, Errno, hpe_ok, hpe_paused_upgrade, hpe, HttpEvent, HttpParser, ServerOptions,
  AcceptResult, reset,
}
use co_wq.Websocket.Handshake.Accept.{
  Reading, complete, running, parse_error, Reader, on_execute, on_recv, read_request, after_reading,
  accept,
}

either_ends :
    {R : Type 0} (b : Bool) (x y : Reading × R)
    → x.0 ≢ running
    → y.0 ≢ running
    → (if b then x else y).0 ≢ running
either_ends true x y f g = f
either_ends false x y f g = g

module _ {P S : Type 0} (http : HttpParser P) (sock : Socket S) (opts : ServerOptions) where
  on_execute_ends :
      (next : Reader P S → Reading × Reader P S) (r : Reader P S) (e : List HttpEvent × (Errno × P))
      → ((q : Reader P S) → q.total_bytes ≡ r.total_bytes → (next q).0 ≢ running)
      → (on_execute http sock opts next r e).0 ≢ running
  unfolding on_execute
  on_execute_ends next r (events, (hpe_ok, parser)) f =
      f (record r { ctx = on_events events r.ctx; parser = parser }) refl
  on_execute_ends next r (events, (hpe_paused_upgrade, parser)) f = λ e. cc
  on_execute_ends next r (events, (hpe name, parser)) f = λ e. cc

  on_recv_ends :
      (next : Reader P S → Reading × Reader P S) (r : Reader P S) (x : Recv × S)
      → ((q : Reader P S)
          → r.total_bytes < q.total_bytes
          → q.total_bytes ≤ opts.max_request_size
          → (next q).0 ≢ running)
      → (on_recv http sock opts next r x).0 ≢ running
  unfolding on_recv
  on_recv_ends next r (failed n, s) f = λ e. cc
  on_recv_ends next r (got [], s) f = λ e. cc
  on_recv_ends next r (got (b ∷ bs), s) f =
      let read = record r {
        ctx = record r.ctx { raw_data = r.ctx.raw_data ++ b ∷ bs };
        total_bytes = r.total_bytes + length (b ∷ bs);
        state = s;
      } in
      elim (Bool-cases (ltb opts.max_request_size (r.total_bytes + length (b ∷ bs)))) [
        | inl big ↦ rw big (λ e. cc)
        | inr fits ↦ rw fits (
            on_execute_ends next read (http.llhttp_execute (b ∷ bs) r.parser)
              (λ q same. f q (omega (arith, same)) (ground (arith, same, fits))))
      ]

  read_request_ends :
      (fuel : ℕ) (r : Reader P S)
      → r.total_bytes ≤ opts.max_request_size
      → opts.max_request_size + 1 < fuel + r.total_bytes
      → (read_request http sock opts fuel r).0 ≢ running
  unfolding read_request
  read_request_ends zero r small enough = absurd (omega arith)
  read_request_ends (suc fuel) r small enough =
      either_ends r.ctx.message_complete (complete, r)
        (on_recv http sock opts (read_request http sock opts fuel) r (sock.recv 4096 r.state))
        (λ e. cc)
        (on_recv_ends (read_request http sock opts fuel) r (sock.recv 4096 r.state)
          (λ q grows fits. read_request_ends fuel q fits (omega arith)))

module _ {P S : Type 0} (http : HttpParser P) (sock : Socket S) (digest : Text → Text)
    (opts : ServerOptions) where
  after_reading-some :
      (x : Reading × Reader P S)
      → x.0 ≢ running
      → (result : AcceptResult × S) × (after_reading http sock digest opts x ≡ some result)
  unfolding after_reading
  after_reading-some (complete, r) f = (_, refl)
  after_reading-some (running, r) f = absurd (f refl)
  after_reading-some (parse_error status_code reason early, r) f = (_, refl)

  -- The handshake returns a result on every socket, with every parser and every digest: the loop that
  -- reads the request ends, because each round receives a byte of at most `max_request_size`.
  pub accept-some :
      (s : S) → (result : AcceptResult × S) × (accept http sock digest opts s ≡ some result)
  unfolding accept
  accept-some s =
      let start : Reader P S = record {
        ctx = reset;
        parser = http.llhttp_init;
        total_bytes = 0;
        state = s;
      } in
      after_reading-some (read_request http sock opts (suc (suc opts.max_request_size)) start) (
        read_request_ends http sock opts (suc (suc opts.max_request_size)) start (omega arith)
          (omega arith))
