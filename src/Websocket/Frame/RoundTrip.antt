-- ===== src/Websocket/Frame/RoundTrip.antt =====
-- A frame that `send_frame` puts on the wire comes back from `read_frame`.
use mathlib.Core.List.{append_cancel_left}
use co_wq.Prelude.{
  ℕ, ◌^◌, ◌≤◌, ◌<◌, ◌≡◌, sym, ap, ◌∙◌, ◌⊎◌, true, false, List, [], ◌∷◌, ◌++◌, append-nil,
  append_assoc, length, arith,
}
use co_wq.Websocket.Socket.{Socket, Stream}
use co_wq.Websocket.Socket.Reading.{Delivers}
use co_wq.Websocket.Frame.{
  FrameReadOptions, SendOptions, choose_key, apply_mask, read_frame, send_frame, frame_header,
  frame_payload,
}
use co_wq.Websocket.Frame.Decode.{sent_frame, wire_of, read_frame-sent_frame}

module _ {S : Type 0} {sock : Socket S} (st : Stream sock) where
  open st use {pending, written}

  frame_payload-nil : (opts : SendOptions) (random : ℕ) → frame_payload [] opts random ≡ []
  unfolding frame_payload apply_mask
  frame_payload-nil opts random = ground arith

  -- `send_frame` writes the header and the payload, in one call or two.
  pub send_frame-wire_of :
      (random op : ℕ) (payload : List ℕ) (opts : SendOptions) (s : S)
      → let s' = send_frame sock random op payload opts s in
        (written s' ≡ written s ++ wire_of random op payload opts) × (pending s' ≡ pending s)
  unfolding send_frame
  send_frame-wire_of random op [] opts s =
      let header = frame_header op 0 opts random in
      let (done, put, kept) = st.send_appends header s in
      (
        put ∙ ap (◌++◌ (written s)) (rw (frame_payload-nil opts random) (sym (append-nil header))),
        kept,
      )
  send_frame-wire_of random op (b ∷ bs) opts s =
      let header = frame_header op (length (b ∷ bs)) opts random in
      let (done, put, kept) = st.send_appends header s in
      let body = frame_payload (b ∷ bs) opts random in
      let (done', put', kept') = st.send_appends body (sock.send_all header s).1 in
      rw (done, send_frame) (put' ∙ rw put (append_assoc (written s) header body), kept' ∙ kept)

module _ {S T : Type 0} {sender : Socket S} {reader : Socket T} (out : Stream sender)
    (inp : Stream reader) where
  -- Over byte streams that keep what is sent, `read_frame` returns the frame that `send_frame` was
  -- given: for every opcode of four bits, payload of up to the reader's limit and 2^64 - 1 bytes,
  -- masked or not, fragmented by the stream in any way. The reader takes exactly the bytes that the
  -- sender wrote. It is required that the frame is masked or that the reader accepts bare frames.
  pub read_frame-send_frame :
      (random op : ℕ) (payload : List ℕ) (opts : SendOptions) (ro : FrameReadOptions) (s : S)
      (t : T) (rest : List ℕ)
      → op < 16
      → length payload < 2 ^ 64
      → length payload ≤ ro.max_frame_size
      → choose_key opts random < 2 ^ 32
      → (opts.mask ≡ true) ⊎ (ro.require_masked_client ≡ false)
      → out.written s ++ inp.pending t
        ≡ out.written (send_frame sender random op payload opts s) ++ rest
      → Delivers inp t (sent_frame random op payload opts ro) rest (read_frame reader ro t)
  read_frame-send_frame random op payload opts ro s t rest h small fits k allowed p =
      read_frame-sent_frame inp random op payload opts ro t rest h small fits k allowed (
        append_cancel_left (out.written s) _ _ (
          p
          ∙ ap (λ w. w ++ rest) (send_frame-wire_of out random op payload opts s).0
          ∙ append_assoc (out.written s) (wire_of random op payload opts) rest))
