-- ===== src/Websocket/Frame/Examples.antt =====
-- Frames at concrete inputs; the masked "Hello" is that of RFC 6455, section 5.7.
use co_wq.Prelude.{ℕ, ◌≡◌, ◌≢◌, refl, inl, true, List, [], ◌∷◌, ◌++◌, some, arith}
use co_wq.Websocket.Socket.{ok, err, eproto, emsgsize, econnreset, out_of_fuel, recv_exact}
use co_wq.Websocket.Socket.Reading.{Delivers, recv_exact-ends}
use co_wq.Websocket.Socket.Loopback.{Wire, loopback, loopback_stream}
use co_wq.Websocket.Frame.{
  FrameReadOptions, SendOptions, text, read_frame, read_length, read_key, send_frame, frame_header,
  frame_payload, length_bytes, apply_mask, mask_bytes, join_key, join_be,
}
use co_wq.Websocket.Frame.Decode.{sent_frame}
use co_wq.Websocket.Frame.RoundTrip.{read_frame-send_frame}

abbrev server : FrameReadOptions
server = record { max_frame_size = 0x10_0000; require_masked_client = true; auto_unmask = true }

abbrev client : SendOptions
client = record { fin = true; mask = true; masking_key = some 0x37fa213d }

abbrev hello : List ℕ
hello = 0x48 ∷ 0x65 ∷ 0x6c ∷ 0x6c ∷ 0x6f ∷ []

abbrev masked_hello : List ℕ
masked_hello = 0x81 ∷ 0x85 ∷ 0x37 ∷ 0xfa ∷ 0x21 ∷ 0x3d ∷ 0x7f ∷ 0x9f ∷ 0x4d ∷ 0x51 ∷ 0x58 ∷ []

abbrev wire : List ℕ → Wire
wire bytes = record { pending = bytes; written = [] }

send_hello : (send_frame loopback 0 text hello client (wire [])).written ≡ masked_hello
unfolding send_frame frame_header frame_payload length_bytes apply_mask mask_bytes
send_hello = refl

read_hello :
    read_frame loopback server (wire masked_hello)
    ≡ (ok (sent_frame 0 text hello client server), wire [])
unfolding read_frame read_length read_key recv_exact join_key apply_mask mask_bytes
read_hello = refl

-- A bare frame is refused by a server, and so are a reserved bit and a payload above the limit.
read_unmasked : (read_frame loopback server (wire (0x81 ∷ 0x01 ∷ 0x48 ∷ []))).0 ≡ err eproto
unfolding read_frame read_length read_key recv_exact
read_unmasked = refl

read_reserved : (read_frame loopback server (wire (0xc1 ∷ 0x80 ∷ []))).0 ≡ err eproto
unfolding read_frame read_length read_key recv_exact
read_reserved = refl

read_large :
    (read_frame loopback server (wire (0x81 ∷ 0xff ∷ 0 ∷ 0 ∷ 0 ∷ 0 ∷ 1 ∷ 0 ∷ 0 ∷ 0 ∷ []))).0
    ≡ err emsgsize
unfolding read_frame read_length read_key recv_exact join_be
read_large = refl

read_cut : (read_frame loopback server (wire (0x81 ∷ []))).0 ≡ err econnreset
unfolding read_frame read_length read_key recv_exact
read_cut = refl

read_frame-send_frame_example :
    Delivers loopback_stream
      (wire (masked_hello ++ 7 ∷ []))
      (sent_frame 0 text hello client server)
      (7 ∷ [])
      (read_frame loopback server (wire (masked_hello ++ 7 ∷ [])))
unfolding send_frame frame_header frame_payload length_bytes apply_mask mask_bytes
read_frame-send_frame_example =
    read_frame-send_frame loopback_stream loopback_stream 0 text hello client server (wire [])
      (wire (masked_hello ++ 7 ∷ [])) (7 ∷ []) (omega arith) (omega arith) (omega arith)
      (omega arith) (inl refl) refl

recv_exact-ends_example : (recv_exact loopback 4 (wire (1 ∷ 2 ∷ []))).0 ≢ err out_of_fuel
recv_exact-ends_example = recv_exact-ends loopback 4 (wire (1 ∷ 2 ∷ []))
