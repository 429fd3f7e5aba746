-- ===== src/Websocket/Message/Reassembly.antt =====
-- `read_message` puts a fragmented message together.
use co_wq.Prelude.{
  ℕ, suc, ◌+◌, ◌<◌, ◌≡◌, refl, sym, ap, ◌∙◌, Bool, true, false, List, [], ◌∷◌, ◌++◌, append-nil,
  append_assoc, length, if◌then◌else◌, arith,
}
use co_wq.Websocket.Socket.{Socket, Stream, Result, ok}
use co_wq.Websocket.Frame.{Opcode, Frame, SendOptions, close, ping, pong, read_frame, send_frame}
use co_wq.Websocket.Frame.Decode.{sent_frame, wire_of, read_frame-sent_frame}
use co_wq.Websocket.Frame.RoundTrip.{send_frame-wire_of}
use co_wq.Websocket.Message.Pieces.{
  Piece, part, pings, pongs, next_op, absorb, frame_wire, pieces_wire, absorb_all, replies, Fits,
  AllFit, Agree, data_message, contents, rounds, rounds-length, data_message-absorb_all,
}
use co_wq.Websocket.Message.{
  Message, MessageReadOptions, Partial, empty_message, nothing_read, unmasked, on_frame, on_data,
  extend, message_loop, read_message, close_message,
}

module _ {S : Type 0} {sock : Socket S} (st : Stream sock) {random : ℕ} {peer : SendOptions}
    {opts : MessageReadOptions} (agree : Agree random peer opts) where
  open st use {pending, written}

  -- One frame of the peer is read as what it was.
  pub next_frame :
      (fin : Bool) (op : Opcode) (bs rest : List ℕ) (s : S)
      → op < 16
      → Fits random peer opts bs
      → pending s ≡ frame_wire random peer opts fin op bs ++ rest
      → (fr : Frame) × (s' : S) × (read_frame sock opts.frames s ≡ (ok fr, s'))
        × (pending s' ≡ rest)
        × (written s' ≡ written s)
        × (fr.fin ≡ fin)
        × (fr.op ≡ op)
        × (fr.payload ≡ bs)
  next_frame fin op bs rest s h fits p =
      let d =
        read_frame-sent_frame st random op bs (record peer { fin = fin }) opts.frames s rest h
          fits.1 fits.0 agree.key agree.masked p in
      let fr = sent_frame random op bs (record peer { fin = fin }) opts.frames in
      let s' = (read_frame sock opts.frames s).1 in
      (fr, s', (λ i. (d.result i, s')), d.left, d.kept, refl, refl, rw agree.unmasks)

module _ {S : Type 0} (sock : Socket S) (opts : MessageReadOptions)
    (next : Partial → S → Result Message × S) (p : Partial) (fr : Frame) (s : S) where
  on_frame-ping :
      fr.op ≡ ping
      → on_frame sock opts next p fr s
        ≡ next p (if opts.respond_to_ping then send_frame sock 0 pong fr.payload unmasked s else s)
  unfolding on_frame
  on_frame-ping e = rw e

  on_frame-pong : fr.op ≡ pong → on_frame sock opts next p fr s ≡ next p s
  unfolding on_frame
  on_frame-pong e = rw e

  pub on_frame-close :
      fr.op ≡ close → on_frame sock opts next p fr s ≡ (ok (close_message fr.payload), s)
  unfolding on_frame
  on_frame-close e = rw e

  on_frame_part :
      (op : Opcode) (bs : List ℕ)
      → 0 < op
      → op < 8
      → fr.op ≡ next_op op p
      → fr.payload ≡ bs
      → on_frame sock opts next p fr s ≡ extend sock opts next fr (absorb op p bs) s
  unfolding on_frame on_data
  on_frame_part op bs pos small e b = ground arith

  extend-more : (q : Partial) → fr.fin ≡ false → extend sock opts next fr q s ≡ next q s
  unfolding extend
  extend-more q e = rw e

  extend-last :
      (q : Partial)
      → fr.fin ≡ true
      → extend sock opts next fr q s
        ≡ (ok (record empty_message { op = q.current_opcode; payload = q.buffer }), s)
  unfolding extend
  extend-last q e = rw e

module _ {S : Type 0} {sock : Socket S} (st : Stream sock) {random : ℕ} {peer : SendOptions}
    {opts : MessageReadOptions} (agree : Agree random peer opts) (op : Opcode) (pos : 0 < op)
    (small : op < 8) where
  open st use {pending, written}

  pub loop_step :
      (fuel : ℕ) (p : Partial) (s s' : S) (fr : Frame)
      → read_frame sock opts.frames s ≡ (ok fr, s')
      → message_loop sock opts (suc fuel) p s
        ≡ on_frame sock opts (message_loop sock opts fuel) p fr s'
  unfolding message_loop
  loop_step fuel p s s' fr e = rw e

  answer :
      (bs : List ℕ) (s : S) (b : Bool)
      → let s' = if b then send_frame sock 0 pong bs unmasked s else s in
        (pending s' ≡ pending s)
        × (written s' ≡ written s ++ (if b then wire_of 0 pong bs unmasked else []))
  answer bs s true = let w = send_frame-wire_of st 0 pong bs unmasked s in (w.1, w.0)
  answer bs s false = (refl, sym (append-nil (written s)))

  next_op-lt : (p : Partial) → next_op op p < 16
  next_op-lt p = ground arith

  -- The loop has read the pieces `ps`, and stands before `rest`.
  abbrev pub After : List Piece → ℕ → Partial → S → List ℕ → Type 0
  After ps fuel p s rest =
      (s' : S) × (message_loop sock opts (rounds ps fuel) p s
        ≡ message_loop sock opts fuel (absorb_all op p ps) s')
      × (pending s' ≡ rest)
      × (written s' ≡ written s ++ replies random peer opts ps)

  abbrev reply : List ℕ → List ℕ
  reply bs = if opts.respond_to_ping then wire_of 0 pong bs unmasked else []

  cut_wire :
      {s : S} (xs ys rest : List ℕ)
      → pending s ≡ (xs ++ ys) ++ rest
      → pending s ≡ xs ++ (ys ++ rest)
  cut_wire xs ys rest e = e ∙ append_assoc xs ys rest

  pub read_pieces :
      (ps : List Piece) (fuel : ℕ) (p : Partial) (s : S) (rest : List ℕ)
      → AllFit random peer opts ps
      → pending s ≡ pieces_wire random peer opts op p ps ++ rest
      → After ps fuel p s rest
  read_pieces [] fuel p s rest fit e = (s, refl, e, sym (append-nil (written s)))
  read_pieces (part bs ∷ ps) fuel p s rest fit e =
      let (fr, s1, r, left, kept, fin, o, b) =
        next_frame st agree false (next_op op p) bs
          (pieces_wire random peer opts op (absorb op p bs) ps ++ rest) s (next_op-lt p) fit.0
          (cut_wire (frame_wire random peer opts false (next_op op p) bs)
            (pieces_wire random peer opts op (absorb op p bs) ps) rest e) in
      let (s2, loop, left2, wrote) = read_pieces ps fuel (absorb op p bs) s1 rest fit.1 left in
      let next = message_loop sock opts (rounds ps fuel) in
      (
        s2,
        loop_step (rounds ps fuel) p s s1 fr r
            ∙ on_frame_part sock opts next p fr s1 op bs pos small o b
            ∙ extend-more sock opts next p fr s1 (absorb op p bs) fin
            ∙ loop,
        left2,
        wrote ∙ ap (λ w. w ++ replies random peer opts ps) kept,
      )
  read_pieces (pings bs ∷ ps) fuel p s rest fit e =
      let (fr, s1, r, left, kept, fin, o, b) =
        next_frame st agree true ping bs (pieces_wire random peer opts op p ps ++ rest) s
          (omega arith) fit.0
          (cut_wire (frame_wire random peer opts true ping bs)
            (pieces_wire random peer opts op p ps) rest e) in
      let (same, wrote1) = answer bs s1 opts.respond_to_ping in
      let (s2, loop, left2, wrote) =
        read_pieces ps fuel p
          (if opts.respond_to_ping then send_frame sock 0 pong bs unmasked s1 else s1) rest fit.1
          (same ∙ left) in
      let next = message_loop sock opts (rounds ps fuel) in
      (
        s2,
        loop_step (rounds ps fuel) p s s1 fr r
            ∙ on_frame-ping sock opts next p fr s1 o
            ∙ ap
                (λ x.
                  next p
                    (if opts.respond_to_ping then send_frame sock 0 pong x unmasked s1 else s1))
                b
            ∙ loop,
        left2,
        wrote
            ∙ ap (λ w. w ++ replies random peer opts ps) (wrote1 ∙ ap (λ w. w ++ reply bs) kept)
            ∙ append_assoc (written s) (reply bs) (replies random peer opts ps),
      )
  read_pieces (pongs bs ∷ ps) fuel p s rest fit e =
      let (fr, s1, r, left, kept, fin, o, b) =
        next_frame st agree true pong bs (pieces_wire random peer opts op p ps ++ rest) s
          (omega arith) fit.0
          (cut_wire (frame_wire random peer opts true pong bs)
            (pieces_wire random peer opts op p ps) rest e) in
      let (s2, loop, left2, wrote) = read_pieces ps fuel p s1 rest fit.1 left in
      let next = message_loop sock opts (rounds ps fuel) in
      (
        s2,
        loop_step (rounds ps fuel) p s s1 fr r ∙ on_frame-pong sock opts next p fr s1 o ∙ loop,
        left2,
        wrote ∙ ap (λ w. w ++ replies random peer opts ps) kept,
      )

  -- `read_message` puts a fragmented message together: over a byte stream that holds any number of
  -- parts, with pings and pongs between them, and a last frame, it returns the opcode of the first
  -- part and the parts in order, takes exactly those bytes, and answers each ping by a pong with
  -- the same bytes, in order, if it is told to. One round for each frame is enough. The opcode is
  -- not that of a control frame, the payloads fit the reader's limit, and the reader agrees with
  -- the peer on masking.
  pub read_message-pieces_wire :
      (ps : List Piece) (bs rest : List ℕ) (s : S)
      → let p = absorb_all op nothing_read ps in
        AllFit random peer opts ps
        → Fits random peer opts bs
        → pending s
          ≡ pieces_wire random peer opts op nothing_read ps
            ++ (frame_wire random peer opts true (next_op op p) bs ++ rest)
        → let r = read_message sock opts (length ps + 1) s in
          (r.0 ≡ ok (record empty_message { op = op; payload = contents ps ++ bs }))
          × (pending r.1 ≡ rest)
          × (written r.1 ≡ written s ++ replies random peer opts ps)
  unfolding read_message
  read_message-pieces_wire ps bs rest s fit fits e =
      let p = absorb_all op nothing_read ps in
      let (s1, loop, left, wrote) = read_pieces ps 1 nothing_read s _ fit e in
      let (fr, s2, r, left2, kept, fin, o, b) =
        next_frame st agree true (next_op op p) bs rest s1 (next_op-lt p) fits left in
      let next = message_loop sock opts 0 in
      let run : message_loop sock opts (length ps + 1) nothing_read s
          ≡ (ok (data_message (absorb op p bs)), s2) =
        ap (λ n. message_loop sock opts n nothing_read s) (sym (rounds-length ps 1))
        ∙ loop
        ∙ loop_step 0 p s1 s2 fr r
        ∙ on_frame_part sock opts next p fr s2 op bs pos small o b
        ∙ extend-last sock opts next p fr s2 (absorb op p bs) fin in
      rw run (ap ok (data_message-absorb_all op ps bs), left2, kept ∙ wrote)
