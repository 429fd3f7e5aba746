-- ===== src/Websocket/Message/Pieces.antt =====
-- A fragmented message as its peer sends it, and what a reader is to make of it.
use co_wq.Prelude.{
  ℕ, suc, ◌+◌, ◌^◌, ◌≤◌, ◌<◌, ◌≡◌, refl, ◌∙◌, ◌⊎◌, Bool, true, false, List, [], ◌∷◌, ◌++◌,
  append_assoc, length, if◌then◌else◌, arith,
}
use co_wq.Websocket.Frame.{Opcode, SendOptions, continuation, ping, pong, choose_key}
use co_wq.Websocket.Frame.Decode.{wire_of}
use co_wq.Websocket.Message.{
  Message, MessageReadOptions, Partial, empty_message, nothing_read, unmasked,
}

-- What a peer sends before the last frame of a message: a part of it, or a control frame between
-- the parts.
pub data Piece : Type 0 where
  part pings pongs : List ℕ → Piece

-- The opcode of the next part: that of the message, and `continuation` from the second on.
abbrev pub next_op : Opcode → Partial → Opcode
next_op op p = if p.started then continuation else op

abbrev pub absorb : Opcode → Partial → List ℕ → Partial
absorb op p bs = record {
  started = true;
  current_opcode = if p.started then p.current_opcode else op;
  buffer = if p.started then p.buffer ++ bs else bs;
}

abbrev pub absorb_all : Opcode → Partial → List Piece → Partial
absorb_all op p [] = p
absorb_all op p (part bs ∷ ps) = absorb_all op (absorb op p bs) ps
absorb_all op p (pings bs ∷ ps) = absorb_all op p ps
absorb_all op p (pongs bs ∷ ps) = absorb_all op p ps

-- The peer's settings: its random number, its options but for `fin`, and the reader's.
module _ (random : ℕ) (peer : SendOptions) (opts : MessageReadOptions) where
  abbrev pub frame_wire : Bool → Opcode → List ℕ → List ℕ
  frame_wire fin op bs = wire_of random op bs (record peer { fin = fin })

  abbrev pub pieces_wire : Opcode → Partial → List Piece → List ℕ
  pieces_wire op p [] = []
  pieces_wire op p (part bs ∷ ps) =
      frame_wire false (next_op op p) bs ++ pieces_wire op (absorb op p bs) ps
  pieces_wire op p (pings bs ∷ ps) = frame_wire true ping bs ++ pieces_wire op p ps
  pieces_wire op p (pongs bs ∷ ps) = frame_wire true pong bs ++ pieces_wire op p ps

  -- The pongs that the reader owes for the pings among the pieces.
  abbrev pub replies : List Piece → List ℕ
  replies [] = []
  replies (part bs ∷ ps) = replies ps
  replies (pings bs ∷ ps) =
      (if opts.respond_to_ping then wire_of 0 pong bs unmasked else []) ++ replies ps
  replies (pongs bs ∷ ps) = replies ps

  abbrev pub Fits : List ℕ → Type 0
  Fits bs = (length bs ≤ opts.frames.max_frame_size) × (length bs < 2 ^ 64)

  abbrev pub AllFit : List Piece → Type 0
  AllFit [] = Unit {0}
  AllFit (part bs ∷ ps) = Fits bs × AllFit ps
  AllFit (pings bs ∷ ps) = Fits bs × AllFit ps
  AllFit (pongs bs ∷ ps) = Fits bs × AllFit ps

  -- The reader accepts the peer's frames, and unmasks what is masked.
  pub record Agree : Type 0 where
    pub key : choose_key peer random < 2 ^ 32
    pub masked : (peer.mask ≡ true) ⊎ (opts.frames.require_masked_client ≡ false)
    pub unmasks : opts.frames.auto_unmask ≡ true

abbrev pub data_message : Partial → Message
data_message p = record empty_message { op = p.current_opcode; payload = p.buffer }

-- The data of the parts, in order.
abbrev pub contents : List Piece → List ℕ
contents [] = []
contents (part bs ∷ ps) = bs ++ contents ps
contents (pings bs ∷ ps) = contents ps
contents (pongs bs ∷ ps) = contents ps

-- The rounds that the pieces take, and `fuel` more.
abbrev pub rounds : List Piece → ℕ → ℕ
rounds [] fuel = fuel
rounds (x ∷ ps) fuel = suc (rounds ps fuel)

pub rounds-length : (ps : List Piece) (fuel : ℕ) → rounds ps fuel ≡ length ps + fuel
rounds-length [] fuel = omega arith
rounds-length (x ∷ ps) fuel = omega (arith, rounds-length ps fuel)

module _ (op : Opcode) where
  absorb_started :
      (ps : List Piece) (p : Partial) (bs : List ℕ)
      → p.started ≡ true
      → data_message (absorb op (absorb_all op p ps) bs)
        ≡ record empty_message { op = p.current_opcode; payload = p.buffer ++ (contents ps ++ bs) }
  absorb_started [] p bs e = ground arith
  absorb_started (part xs ∷ ps) p bs e =
      absorb_started ps (absorb op p xs) bs refl
      ∙ ground
          (arith, append_assoc xs (contents ps) bs, append_assoc p.buffer xs (contents ps ++ bs))
  absorb_started (pings xs ∷ ps) p bs e = absorb_started ps p bs e
  absorb_started (pongs xs ∷ ps) p bs e = absorb_started ps p bs e

  pub data_message-absorb_all :
      (ps : List Piece) (bs : List ℕ)
      → data_message (absorb op (absorb_all op nothing_read ps) bs)
        ≡ record empty_message { op = op; payload = contents ps ++ bs }
  data_message-absorb_all [] bs = refl
  data_message-absorb_all (part xs ∷ ps) bs =
      absorb_started ps (absorb op nothing_read xs) bs refl ∙ rw (append_assoc xs (contents ps) bs)
  data_message-absorb_all (pings xs ∷ ps) bs = data_message-absorb_all ps bs
  data_message-absorb_all (pongs xs ∷ ps) bs = data_message-absorb_all ps bs
