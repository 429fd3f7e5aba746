-- ===== src/Websocket/Message/Endings.antt =====
-- How `read_message` ends other than with a whole message: a close frame, and frames out of order.
use co_wq.Prelude.{
  ℕ, ◌+◌, ◌*◌, ◌/◌, ◌%◌, ◌^◌, ◌<◌, ◌≡◌, refl, sym, ap, ◌∙◌, ◌⊎◌, ◌≢◌, Bool, true, false, List, ◌++◌,
  length, bit_and, bit_or, arith,
}
use co_wq.Prelude.Bits.{bit_or-shift, mask_8}
use co_wq.Websocket.Socket.{Socket, Stream, Result, ok, err, eproto}
use co_wq.Websocket.Frame.{Opcode, Frame, SendOptions, continuation, close}
use co_wq.Websocket.Message.Pieces.{
  Piece, frame_wire, pieces_wire, absorb_all, replies, Fits, AllFit, Agree, rounds-length,
}
use co_wq.Websocket.Message.Reassembly.{next_frame, loop_step, read_pieces, on_frame-close}
use co_wq.Websocket.Message.{
  Message, MessageReadOptions, Partial, empty_message, nothing_read, on_frame, on_data,
  message_loop, read_message, close_message, close_payload,
}

-- The two bytes of a close code stand for it.
close_message-close_payload :
    (code : ℕ) (reason : List ℕ)
    → code < 2 ^ 16
    → close_message (close_payload code reason)
      ≡ record empty_message { closed = true; close_code = code; close_reason = reason }
unfolding close_message close_payload
close_message-close_payload code reason h = rw (code_back) refl
  where
    code_back : bit_or (bit_and (code / 2 ^ 8) 0xff * 2 ^ 8) (bit_and code 0xff) % 2 ^ 16 ≡ code
    code_back =
        simp mask_8
          (rw (bit_or-shift 8 (code / 2 ^ 8 % 256) (code % 256) (omega arith)) (omega arith))

-- A data frame where none may stand: a first part that continues, or a new message inside one.
abbrev pub OutOfOrder : Partial → Opcode → Type 0
OutOfOrder p other =
    ((p.started ≡ true) × (other ≢ continuation)) ⊎ ((p.started ≡ false) × (other ≡ continuation))

on_frame-OutOfOrder :
    {S : Type 0} (sock : Socket S) (opts : MessageReadOptions)
    (next : Partial → S → Result Message × S) (p : Partial) (fr : Frame) (s : S) (other : Opcode)
    → fr.op ≡ other
    → other < 8
    → OutOfOrder p other
    → on_frame sock opts next p fr s ≡ (err eproto, s)
unfolding on_frame on_data
on_frame-OutOfOrder sock opts next p fr s other e small bad = ground arith

module _ {S : Type 0} {sock : Socket S} (st : Stream sock) {random : ℕ} {peer : SendOptions}
    {opts : MessageReadOptions} (agree : Agree random peer opts) (op : Opcode) (pos : 0 < op)
    (small : op < 8) where
  open st use {pending, written}

  -- Whatever parts and control frames have come before, a close frame as `send_close` makes it ends
  -- `read_message` with the code and the reason that were sent, and with the pongs that are owed;
  -- the data read so far is dropped. The code fits 16 bits.
  pub read_message-close_payload :
      (ps : List Piece) (code : ℕ) (reason rest : List ℕ) (s : S)
      → code < 2 ^ 16
      → AllFit random peer opts ps
      → Fits random peer opts (close_payload code reason)
      → pending s
        ≡ pieces_wire random peer opts op nothing_read ps
          ++ (frame_wire random peer opts true close (close_payload code reason) ++ rest)
      → let r = read_message sock opts (length ps + 1) s in
        (r.0
          ≡ ok (record empty_message { closed = true; close_code = code; close_reason = reason }))
        × (pending r.1 ≡ rest)
        × (written r.1 ≡ written s ++ replies random peer opts ps)
  unfolding read_message
  read_message-close_payload ps code reason rest s h fit fits e =
      let p = absorb_all op nothing_read ps in
      let (s1, loop, left, wrote) = read_pieces st agree op pos small ps 1 nothing_read s _ fit e in
      let (fr, s2, r, left2, kept, fin, o, b) =
        next_frame st agree true close (close_payload code reason) rest s1 (omega arith) fits
          left in
      let run =
        ap (λ n. message_loop sock opts n nothing_read s) (sym (rounds-length ps 1))
        ∙ loop
        ∙ loop_step st agree op pos small 0 p s1 s2 fr r
        ∙ on_frame-close sock opts (message_loop sock opts 0) p fr s2 o in
      rw run (
        ap ok (ap close_message b ∙ close_message-close_payload code reason h),
        left2,
        kept ∙ wrote,
      )

  -- A data frame out of order is a protocol error, whatever has come before: a message that begins
  -- with a continuation, or another message's frame before the last part. Its opcode is below 8.
  pub read_message-OutOfOrder :
      (ps : List Piece) (fin : Bool) (other : Opcode) (bs rest : List ℕ) (s : S)
      → other < 8
      → OutOfOrder (absorb_all op nothing_read ps) other
      → AllFit random peer opts ps
      → Fits random peer opts bs
      → pending s
        ≡ pieces_wire random peer opts op nothing_read ps
          ++ (frame_wire random peer opts fin other bs ++ rest)
      → (read_message sock opts (length ps + 1) s).0 ≡ err eproto
  unfolding read_message
  read_message-OutOfOrder ps fin other bs rest s h bad fit fits e =
      let p = absorb_all op nothing_read ps in
      let (s1, loop, left, wrote) = read_pieces st agree op pos small ps 1 nothing_read s _ fit e in
      let (fr, s2, r, left2, kept, f, o, b) =
        next_frame st agree fin other bs rest s1 (omega arith) fits left in
      let run =
        ap (λ n. message_loop sock opts n nothing_read s) (sym (rounds-length ps 1))
        ∙ loop
        ∙ loop_step st agree op pos small 0 p s1 s2 fr r
        ∙ on_frame-OutOfOrder sock opts (message_loop sock opts 0) p fr s2 other o h bad in
      rw run refl
