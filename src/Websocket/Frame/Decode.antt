-- ===== src/Websocket/Frame/Decode.antt =====
-- What `read_frame` makes of the bytes that `frame_header` and `frame_payload` describe.
use co_wq.Prelude.{
  ℕ, ◌*◌, ◌/◌, ◌%◌, ◌^◌, ◌≤◌, ◌<◌, ◌≡◌, refl, sym, ◌∙◌, ◌⊎◌, inl, inr, Bool, true, false, ◌&&◌,
  List, [], ◌∷◌, ◌++◌, bit_and, bit_or, append_assoc, leb, ◌==◌, if◌then◌else◌, length, Bool-cases,
  arith,
}
use co_wq.Prelude.Bits.{bit_or-shift, mask_8}
use co_wq.Websocket.Socket.{Socket, Stream, ok, recv_exact}
use co_wq.Websocket.Socket.Reading.{Delivers, Delivers-bind, recv_exact-Delivers}
use co_wq.Websocket.Frame.{
  Opcode, Frame, FrameReadOptions, SendOptions, has_bit, choose_key, mask_bytes, apply_mask,
  read_length, read_key, read_frame, split_be, length_bytes, frame_header, frame_payload,
}
use co_wq.Websocket.Frame.Bytes.{
  first_byte, second_byte, join_be-split_be, join_key-mask_bytes, apply_mask-apply_mask,
  length-apply_mask,
}

-- What the reader makes of the frame: the payload is the sender's, unless the reader was told to
-- leave it masked.
abbrev pub sent_frame : ℕ → Opcode → List ℕ → SendOptions → FrameReadOptions → Frame
sent_frame random op payload opts ro = record {
  fin = opts.fin;
  rsv1 = false;
  rsv2 = false;
  rsv3 = false;
  op = op;
  masked = opts.mask;
  masking_key = if opts.mask then choose_key opts random else 0;
  payload = if ro.auto_unmask then payload else frame_payload payload opts random;
}

abbrev pub wire_of : ℕ → Opcode → List ℕ → SendOptions → List ℕ
wire_of random op payload opts =
    frame_header op (length payload) opts random ++ frame_payload payload opts random

module _ {S : Type 0} {sock : Socket S} (st : Stream sock) where
  open st use {pending, written}

  -- What `length_bytes` makes of a length: the second header byte, and the bytes behind it, from
  -- which `read_length` gets the length back.
  record LengthWire (mask : Bool) (len : ℕ) (wire : List ℕ) : Type 0 where
    first : ℕ
    more : List ℕ
    cut : wire ≡ first ∷ more
    flag : has_bit first 0x80 ≡ mask
    reads :
        (s : S) (rest : List ℕ)
        → pending s ≡ more ++ rest
        → Delivers st s len rest (read_length sock (bit_and first 0x7f) s)

  pure-Delivers :
      {A : Type 0} (s : S) (a : A) (rest : List ℕ)
      → pending s ≡ rest
      → Delivers st s a rest (ok a, s)
  pure-Delivers s a rest p = record { result = refl; left = p; kept = refl }

  read_length_short :
      (len : ℕ) (s : S) (rest : List ℕ)
      → len ≤ 125
      → pending s ≡ rest
      → Delivers st s len rest (read_length sock len s)
  unfolding read_length
  read_length_short len s rest h p =
      let not_16 : (len == 126) ≡ false = ground arith in
      let not_64 : (len == 127) ≡ false = ground arith in
      rw (not_16, not_64) (pure-Delivers s len rest p)

  read_length_16 :
      (len : ℕ) (s : S) (rest : List ℕ)
      → len ≤ 0xffff
      → pending s ≡ bit_and (len / 2 ^ 8) 0xff ∷ bit_and len 0xff ∷ rest
      → Delivers st s len rest (read_length sock 126 s)
  unfolding read_length
  read_length_16 len s rest h p =
      Delivers-bind st (recv_exact sock 2 s) _
        (recv_exact-Delivers st 2 (bit_and (len / 2 ^ 8) 0xff ∷ bit_and len 0xff ∷ []) rest s p
          refl)
        λ s' left kept.
          rw
            (let e : bit_or (bit_and (len / 2 ^ 8) 0xff * 2 ^ 8) (bit_and len 0xff) ≡ len =
                simp mask_8 (
                  rw (bit_or-shift 8 (len / 2 ^ 8 % 256) (len % 256) (omega arith))
                    (omega arith)) in
              e)
            (pure-Delivers s' len rest left)

  read_length_64 :
      (len : ℕ) (s : S) (rest : List ℕ)
      → len < 2 ^ 64
      → pending s ≡ split_be len ++ rest
      → Delivers st s len rest (read_length sock 127 s)
  unfolding read_length split_be
  read_length_64 len s rest h p =
      Delivers-bind st (recv_exact sock 8 s) _
        (recv_exact-Delivers st 8 (split_be len) rest s p refl)
        λ s' left kept. rw (join_be-split_be len h) (pure-Delivers s' len rest left)

  length_bytes-LengthWire :
      (mask : Bool) (len : ℕ)
      → len < 2 ^ 64
      → LengthWire mask len (length_bytes (if mask then 0x80 else 0x00) len)
  unfolding length_bytes
  length_bytes-LengthWire mask len small = elim (Bool-cases (leb len 125)) [
    | inl short ↦
        let b = second_byte mask len (ground arith) in
        rw short (record {
          first = bit_or (if mask then 0x80 else 0x00) len;
          more = [];
          cut = refl;
          flag = b.0;
          reads = λ s rest p. rw (b.1) (read_length_short len s rest (ground arith) p);
        })
    | inr long ↦ elim (Bool-cases (leb len 0xffff)) [
      | inl medium ↦
          let b = second_byte mask 126 (omega arith) in
          rw (long, medium)
            (record {
              first = bit_or (if mask then 0x80 else 0x00) 126;
              more = bit_and (len / 2 ^ 8) 0xff ∷ bit_and len 0xff ∷ [];
              cut = refl;
              flag = b.0;
              reads = λ s rest p. rw (b.1) (read_length_16 len s rest (ground arith) p);
            })
      | inr large ↦
          let b = second_byte mask 127 (omega arith) in
          rw (long, large)
            (record {
              first = bit_or (if mask then 0x80 else 0x00) 127;
              more = split_be len;
              cut = refl;
              flag = b.0;
              reads = λ s rest p. rw (b.1) (read_length_64 len s rest small p);
            })
    ]
  ]

  read_key_lem :
      (mask : Bool) (ro : FrameReadOptions) (key : ℕ) (s : S) (rest : List ℕ)
      → key < 2 ^ 32
      → (mask ≡ true) ⊎ (ro.require_masked_client ≡ false)
      → pending s ≡ (if mask then mask_bytes key else []) ++ rest
      → Delivers st s (if mask then key else 0) rest (read_key sock mask ro s)
  unfolding read_key mask_bytes
  read_key_lem true ro key s rest h allowed p =
      Delivers-bind st (recv_exact sock 4 s) _
        (recv_exact-Delivers st 4 (mask_bytes key) rest s p refl)
        λ s' left kept. rw (join_key-mask_bytes key h) (pure-Delivers s' key rest left)
  read_key_lem false ro key s rest h (inl e) p = cc
  read_key_lem false ro key s rest h (inr e) p = rw e (pure-Delivers s 0 rest p)

  unmask :
      (mask auto : Bool) (key : ℕ) (payload : List ℕ)
      → let wire = if mask then apply_mask (mask_bytes key) 0 payload else payload in
        (if mask && auto then apply_mask (mask_bytes (if mask then key else 0)) 0 wire else wire)
        ≡ (if auto then payload else wire)
  unmask true true key payload = apply_mask-apply_mask (mask_bytes key) 0 payload
  unmask true false key payload = refl
  unmask false true key payload = refl
  unmask false false key payload = refl

  again :
      (mask : Bool) (key : ℕ)
      → (if mask then (if mask then key else 0) else 0) ≡ (if mask then key else 0)
  again true key = refl
  again false key = refl

  length-frame_payload :
      (payload : List ℕ) (opts : SendOptions) (random : ℕ)
      → length (frame_payload payload opts random) ≡ length payload
  unfolding frame_payload
  length-frame_payload payload opts random =
      ground (arith, length-apply_mask (mask_bytes (choose_key opts random)) 0 payload)

  pub read_frame-sent_frame :
      (random op : ℕ) (payload : List ℕ) (opts : SendOptions) (ro : FrameReadOptions) (s : S)
      (rest : List ℕ)
      → op < 16
      → length payload < 2 ^ 64
      → length payload ≤ ro.max_frame_size
      → choose_key opts random < 2 ^ 32
      → (opts.mask ≡ true) ⊎ (ro.require_masked_client ≡ false)
      → pending s ≡ wire_of random op payload opts ++ rest
      → Delivers st s (sent_frame random op payload opts ro) rest (read_frame sock ro s)
  unfolding read_frame frame_header frame_payload
  read_frame-sent_frame random op payload opts ro s rest h small fits k allowed p =
      let a = first_byte opts.fin op h in
      let w = length_bytes-LengthWire opts.mask (length payload) small in
      let b0 = bit_or (if opts.fin then 0x80 else 0x00) op in
      let key_wire = if opts.mask then mask_bytes (choose_key opts random) else [] in
      let wire = frame_payload payload opts random in
      let cut : pending s ≡ b0 ∷ w.first ∷ (w.more ++ (key_wire ++ (wire ++ rest))) =
        p ∙ rw (w.cut) (simp append_assoc) in
      Delivers-bind st (recv_exact sock 2 s) _
        (recv_exact-Delivers st 2 (b0 ∷ w.first ∷ []) _ s cut refl)
        λ s1 left1 kept1.
          rw (a.1, a.2, a.3, w.flag)
            (Delivers-bind st (read_length sock (bit_and w.first 0x7f) s1) _ (w.reads s1 _ left1)
              λ s2 left2 kept2.
                rw (let e : leb (length payload) ro.max_frame_size ≡ true = ground arith in e) (
                  Delivers-bind st (read_key sock opts.mask ro s2) _
                    (read_key_lem opts.mask ro (choose_key opts random) s2 (wire ++ rest) k allowed
                      left2)
                    λ s3 left3 kept3.
                      Delivers-bind st (recv_exact sock (length payload) s3) _
                        (recv_exact-Delivers st (length payload) wire rest s3 left3
                          (sym (length-frame_payload payload opts random)))
                        λ s4 left4 kept4.
                          rw
                            (
                              a.0,
                              a.4,
                              again opts.mask (choose_key opts random),
                              unmask opts.mask ro.auto_unmask (choose_key opts random) payload,
                            )
                            (pure-Delivers s4 _ rest left4)))
