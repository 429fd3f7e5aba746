-- ===== src/Websocket/Frame.antt =====
-- net/websocket.hpp: frames, `read_frame` and `send_frame`.
pub mod Bytes
pub mod Decode
pub mod RoundTrip
mod Examples
use co_wq.Prelude.{
  ℕ, suc, ◌*◌, ◌/◌, ◌%◌, ◌^◌, Bool, true, false, not, ◌&&◌, ◌||◌, Option, none, some, List, [], ◌∷◌,
  ◌++◌, bit_and, bit_or, bit_xor, leb, ◌==◌, if◌then◌else◌, length, get_or,
}
use co_wq.Websocket.Socket.{
  Socket, eproto, emsgsize, Io, pure, fail, ◌>>=◌, ◌>>◌, guard, recv_exact,
}

-- `enum class opcode : std::uint8_t`: a read casts any four bits to it, so it is the number.
abbrev pub Opcode : Type 0
Opcode = ℕ

abbrev pub continuation : Opcode
continuation = 0x0

abbrev pub text : Opcode
text = 0x1

abbrev pub binary : Opcode
binary = 0x2

abbrev pub close : Opcode
close = 0x8

abbrev pub ping : Opcode
ping = 0x9

abbrev pub pong : Opcode
pong = 0xa

pub record Frame : Type 0 where
  pub fin : Bool
  pub rsv1 : Bool
  pub rsv2 : Bool
  pub rsv3 : Bool
  pub op : Opcode
  pub masked : Bool
  pub masking_key : ℕ
  pub payload : List ℕ

pub record FrameReadOptions : Type 0 where
  pub max_frame_size : ℕ
  pub require_masked_client : Bool
  pub auto_unmask : Bool

pub record SendOptions : Type 0 where
  pub fin : Bool
  pub mask : Bool
  pub masking_key : Option ℕ

-- `(b & m) != 0`
abbrev pub has_bit : ℕ → ℕ → Bool
has_bit b m = not (bit_and b m == 0)

-- `for (byte : ext64) payload_len = (payload_len << 8) | byte;` on 64 bits.
pub join_be : ℕ → List ℕ → ℕ
join_be acc [] = acc
join_be acc (b ∷ bs) = join_be (bit_or (acc * 2 ^ 8 % 2 ^ 64) b) bs

pub mask_bytes : ℕ → List ℕ
mask_bytes key =
    bit_and (key / 2 ^ 24) 0xff
    ∷ bit_and (key / 2 ^ 16) 0xff
    ∷ bit_and (key / 2 ^ 8) 0xff
    ∷ bit_and key 0xff
    ∷ []

-- `(mask_buf[0] << 24) | (mask_buf[1] << 16) | (mask_buf[2] << 8) | mask_buf[3]`
pub join_key : List ℕ → ℕ
join_key m =
    bit_or (bit_or (bit_or (get_or m 0 0 * 2 ^ 24) (get_or m 1 0 * 2 ^ 16)) (get_or m 2 0 * 2 ^ 8))
      (get_or m 3 0)

-- `for (i = 0; i < payload.size(); ++i) payload[i] ^= mask_bytes[i % 4];` from index `i` on.
pub apply_mask : List ℕ → ℕ → List ℕ → List ℕ
apply_mask mask i [] = []
apply_mask mask i (b ∷ bs) = bit_xor b (get_or mask (i % 4) 0) ∷ apply_mask mask (suc i) bs

module _ {S : Type 0} (sock : Socket S) where
  -- The length that the seven bits stand for, with the two or eight bytes that may follow them.
  pub read_length : ℕ → Io S ℕ
  read_length len =
      if len == 126
      then (do
        ext16 ← recv_exact sock 2
        pure (bit_or (get_or ext16 0 0 * 2 ^ 8) (get_or ext16 1 0)))
      else if len == 127
      then (do ext64 ← recv_exact sock 8; pure (join_be 0 ext64))
      else pure len

  pub read_key : Bool → FrameReadOptions → Io S ℕ
  read_key mask opts =
      if mask
      then (do mask_buf ← recv_exact sock 4; pure (join_key mask_buf))
      else if opts.require_masked_client
      then fail eproto
      else pure 0

  pub read_frame : FrameReadOptions → Io S Frame
  read_frame opts = do
    header ← recv_exact sock 2
    let b0 = get_or header 0 0
    let b1 = get_or header 1 0
    let rsv1 = has_bit b0 0x40
    let rsv2 = has_bit b0 0x20
    let rsv3 = has_bit b0 0x10
    let mask = has_bit b1 0x80
    guard (not (rsv1 || rsv2 || rsv3)) eproto
    payload_len ← read_length (bit_and b1 0x7f)
    guard (leb payload_len opts.max_frame_size) emsgsize
    key ← read_key mask opts
    payload ← recv_exact sock payload_len
    pure (record {
      fin = has_bit b0 0x80;
      rsv1 = rsv1;
      rsv2 = rsv2;
      rsv3 = rsv3;
      op = bit_and b0 0xf;
      masked = mask;
      masking_key = if mask then key else 0;
      payload = if mask && opts.auto_unmask then apply_mask (mask_bytes key) 0 payload else payload;
    })

-- `for (int i = 0; i < 8; ++i) header[2 + i] = (payload_len >> (56 - i * 8)) & 0xFF;`
pub split_be : ℕ → List ℕ
split_be len =
    bit_and (len / 2 ^ 56) 0xff
    ∷ bit_and (len / 2 ^ 48) 0xff
    ∷ bit_and (len / 2 ^ 40) 0xff
    ∷ bit_and (len / 2 ^ 32) 0xff
    ∷ bit_and (len / 2 ^ 24) 0xff
    ∷ bit_and (len / 2 ^ 16) 0xff
    ∷ bit_and (len / 2 ^ 8) 0xff
    ∷ bit_and (len / 2 ^ 0) 0xff
    ∷ []

-- `header[1]` and the bytes of a long length.
pub length_bytes : ℕ → ℕ → List ℕ
length_bytes mask_bit len =
    if leb len 125
    then bit_or mask_bit len ∷ []
    else if leb len 0xffff
    then bit_or mask_bit 126 ∷ bit_and (len / 2 ^ 8) 0xff ∷ bit_and len 0xff ∷ []
    else bit_or mask_bit 127 ∷ split_be len

-- `opts.masking_key.value_or(std::random_device {}())`, where `random` is the device's number.
abbrev pub choose_key : SendOptions → ℕ → ℕ
choose_key opts random = elim opts.masking_key [ none ↦ random | some key ↦ key ]

pub frame_header : Opcode → ℕ → SendOptions → ℕ → List ℕ
frame_header op len opts random =
    bit_or (if opts.fin then 0x80 else 0x00) op
      ∷ length_bytes (if opts.mask then 0x80 else 0x00) len
    ++ (if opts.mask then mask_bytes (choose_key opts random) else [])

pub frame_payload : List ℕ → SendOptions → ℕ → List ℕ
frame_payload payload opts random =
    if opts.mask then apply_mask (mask_bytes (choose_key opts random)) 0 payload else payload

module _ {S : Type 0} (sock : Socket S) where
  abbrev send_payload : List ℕ → List ℕ → Bool × S → S
  send_payload [] wire (sent, s) = s
  send_payload (b ∷ bs) wire (false, s) = s
  send_payload (b ∷ bs) wire (true, s) = (sock.send_all wire s).1

  pub send_frame : ℕ → Opcode → List ℕ → SendOptions → S → S
  send_frame random op payload opts s =
      send_payload payload (frame_payload payload opts random)
        (sock.send_all (frame_header op (length payload) opts random) s)
