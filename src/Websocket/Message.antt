-- ===== src/Websocket/Message.antt =====
-- net/websocket.hpp: `read_message`, and the functions that send a frame of one kind.
pub mod Pieces
pub mod Reassembly
pub mod Endings
mod Examples
use co_wq.Prelude.{
  ℕ, zero, suc, ◌*◌, ◌/◌, ◌%◌, ◌^◌, Bool, true, false, Option, none, List, [], ◌∷◌, ◌++◌, bit_and,
  bit_or, ◌==◌, if◌then◌else◌,
}
use co_wq.Websocket.Socket.{Socket, Result, eproto, out_of_fuel, Io, pure, fail, and_then}
use co_wq.Websocket.Frame.{
  Opcode, Frame, FrameReadOptions, SendOptions, continuation, text, binary, close, ping, pong,
  read_frame, send_frame,
}

pub record Message : Type 0 where
  pub op : Opcode
  pub payload : List ℕ
  pub closed : Bool
  pub close_code : ℕ
  pub close_reason : List ℕ

-- `message msg;` before anything is read.
abbrev pub empty_message : Message
empty_message = record {
  op = text;
  payload = [];
  closed = false;
  close_code = 1000;
  close_reason = [];
}

pub record MessageReadOptions : Type 0 where
  pub frames : FrameReadOptions
  pub respond_to_ping : Bool

-- The locals of the loop: `started`, `current_opcode` and `buffer`.
pub record Partial : Type 0 where
  pub started : Bool
  pub current_opcode : Opcode
  pub buffer : List ℕ

abbrev pub nothing_read : Partial
nothing_read = record { started = false; current_opcode = continuation; buffer = [] }

-- The message for a close frame; `static_cast<uint16_t>(p[0] << 8 | p[1])`.
pub close_message : List ℕ → Message
close_message [] = record empty_message { closed = true }
close_message (a ∷ []) = record empty_message { closed = true }
close_message (a ∷ b ∷ reason) = record empty_message {
  closed = true;
  close_code = bit_or (a * 2 ^ 8) b % 2 ^ 16;
  close_reason = reason;
}

-- The payload of `send_close`.
pub close_payload : ℕ → List ℕ → List ℕ
close_payload code reason = bit_and (code / 2 ^ 8) 0xff ∷ bit_and code 0xff ∷ reason

-- `send_options { .fin = true, .mask = false }`
abbrev pub unmasked : SendOptions
unmasked = record { fin = true; mask = false; masking_key = none }

module _ {S : Type 0} (sock : Socket S) (opts : MessageReadOptions) where
  -- The end of the loop's body, for a frame that belongs to the message.
  pub extend : (Partial → Io S Message) → Frame → Partial → Io S Message
  extend next fr p s =
      if fr.fin
      then pure (record empty_message { op = p.current_opcode; payload = p.buffer }) s
      else next p s

  pub on_data : (Partial → Io S Message) → Frame → Partial → Io S Message
  on_data next fr p s =
      if p.started
      then (if fr.op == continuation
          then extend next fr (record p { buffer = p.buffer ++ fr.payload }) s
          else fail eproto s)
      else if fr.op == continuation
      then fail eproto s
      else extend next fr (record { started = true; current_opcode = fr.op; buffer = fr.payload }) s

  -- The body of `for (;;)` behind the read, `next` being the next round.
  pub on_frame : (Partial → Io S Message) → Partial → Frame → Io S Message
  on_frame next p fr s =
      if fr.op == ping
      then next p (if opts.respond_to_ping then send_frame sock 0 pong fr.payload unmasked s else s)
      else if fr.op == pong
      then next p s
      else if fr.op == close
      then pure (close_message fr.payload) s
      else on_data next fr p s

  -- `fuel` bounds the frames that are read.
  pub message_loop : ℕ → Partial → Io S Message
  message_loop zero p s = fail out_of_fuel s
  message_loop (suc fuel) p s =
      and_then (read_frame sock opts.frames s) (on_frame (message_loop fuel) p)

  pub read_message : ℕ → Io S Message
  read_message fuel = message_loop fuel nothing_read

module _ {S : Type 0} (sock : Socket S) (random : ℕ) where
  pub send_text : List ℕ → SendOptions → S → S
  send_text payload opts s = send_frame sock random text payload opts s

  pub send_binary : List ℕ → SendOptions → S → S
  send_binary payload opts s = send_frame sock random binary payload opts s

  pub send_close : ℕ → List ℕ → SendOptions → S → S
  send_close code reason opts s = send_frame sock random close (close_payload code reason) opts s

  pub send_pong : List ℕ → SendOptions → S → S
  send_pong payload opts s = send_frame sock random pong payload opts s

  pub send_ping : List ℕ → SendOptions → S → S
  send_ping payload opts s = send_frame sock random ping payload opts s
