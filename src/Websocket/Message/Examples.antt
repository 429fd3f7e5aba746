-- ===== src/Websocket/Message/Examples.antt =====
-- Messages at concrete inputs: a text in two parts with a ping between them.
use co_wq.Prelude.{ℕ, ◌≡◌, refl, inl, inr, true, false, List, [], ◌∷◌, ◌++◌, none, arith}
use co_wq.Websocket.Socket.{ok, err, eproto}
use co_wq.Websocket.Socket.Loopback.{Wire, loopback, loopback_stream}
use co_wq.Websocket.Frame.{SendOptions, text, binary}
use co_wq.Websocket.Message.Pieces.{Piece, part, pings, pongs, pieces_wire, frame_wire, Agree}
use co_wq.Websocket.Message.Reassembly.{read_message-pieces_wire}
use co_wq.Websocket.Message.Endings.{read_message-OutOfOrder}
use co_wq.Websocket.Message.{MessageReadOptions, empty_message, nothing_read, read_message}

abbrev opts : MessageReadOptions
opts = record {
  frames = record { max_frame_size = 125; require_masked_client = false; auto_unmask = true };
  respond_to_ping = true;
}

abbrev peer : SendOptions
peer = record { fin = true; mask = false; masking_key = none }

abbrev pieces : List Piece
pieces = pings (9 ∷ []) ∷ part (1 ∷ 2 ∷ []) ∷ pongs [] ∷ []

agreed : Agree 0 peer opts
agreed = record { key = omega arith; masked = inr refl; unmasks = refl }

abbrev wire : List ℕ → Wire
wire bytes = record { pending = bytes; written = [] }

read_message-pieces_wire_example :
    (read_message loopback opts 4 (
      wire (
        pieces_wire 0 peer opts text nothing_read pieces
        ++ (frame_wire 0 peer opts true 0 (3 ∷ []) ++ [])))).0
    ≡ ok (record empty_message { op = text; payload = 1 ∷ 2 ∷ 3 ∷ [] })
read_message-pieces_wire_example =
    (read_message-pieces_wire loopback_stream agreed text (omega arith) (omega arith) pieces
      (3 ∷ []) [] (wire _) (omega arith) (omega arith) refl).0

read_message-OutOfOrder_example :
    (read_message loopback opts 4 (
      wire (
        pieces_wire 0 peer opts text nothing_read pieces
        ++ (frame_wire 0 peer opts true binary (3 ∷ []) ++ [])))).0
    ≡ err eproto
read_message-OutOfOrder_example =
    read_message-OutOfOrder loopback_stream agreed text (omega arith) (omega arith) pieces true
      binary (3 ∷ []) [] (wire _) (omega arith) (inl (refl, omega arith)) (omega arith)
      (omega arith) refl
