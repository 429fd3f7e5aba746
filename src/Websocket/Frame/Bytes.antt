-- ===== src/Websocket/Frame/Bytes.antt =====
-- The bytes of a frame's header: what `send_frame` packs, `read_frame` unpacks.
use co_wq.Prelude.{
  ℕ, suc, ◌+◌, ◌*◌, ◌/◌, ◌%◌, ◌^◌, ◌<◌, ◌≡◌, refl, ap, Bool, true, false, not, List, [], ◌∷◌,
  bit_and, bit_or, ◌&&◌, ◌==◌, if◌then◌else◌, get_or, length, arith,
}
use co_wq.Prelude.Bits.{bit_or-shift, mask_8, bit_xor-cancel, all_below, all_below_sound}
use co_wq.Websocket.Frame.{has_bit, join_be, split_be, join_key, mask_bytes, apply_mask}

-- Masking twice with one key gives the payload back.
pub apply_mask-apply_mask :
    (mask : List ℕ) (i : ℕ) (bs : List ℕ) → apply_mask mask i (apply_mask mask i bs) ≡ bs
unfolding apply_mask
apply_mask-apply_mask mask i [] = refl
apply_mask-apply_mask mask i (b ∷ bs) =
    rw (bit_xor-cancel b (get_or mask (i % 4) 0), apply_mask-apply_mask mask (suc i) bs)

pub length-apply_mask :
    (mask : List ℕ) (i : ℕ) (bs : List ℕ) → length (apply_mask mask i bs) ≡ length bs
unfolding apply_mask
length-apply_mask mask i [] = refl
length-apply_mask mask i (b ∷ bs) = ap suc (length-apply_mask mask (suc i) bs)

-- The facts about the two fixed header bytes, for each value of their low bits.
abbrev fin_ok : ℕ → Bool
fin_ok op =
    has_bit (bit_or 0x80 op) 0x80
    && not (has_bit (bit_or 0x00 op) 0x80)
    && (bit_and (bit_or 0x80 op) 0xf == op)
    && (bit_and (bit_or 0x00 op) 0xf == op)

abbrev rsv_ok : ℕ → ℕ → Bool
rsv_ok m op = not (has_bit (bit_or 0x80 op) m) && not (has_bit (bit_or 0x00 op) m)

abbrev len_ok : ℕ → Bool
len_ok len =
    has_bit (bit_or 0x80 len) 0x80
    && not (has_bit (bit_or 0x00 len) 0x80)
    && (bit_and (bit_or 0x80 len) 0x7f == len)
    && (bit_and (bit_or 0x00 len) 0x7f == len)

fin_table : all_below 16 fin_ok ≡ true
unfolding all_below
fin_table = refl

rsv_table : all_below 16 (λ op. rsv_ok 0x40 op && rsv_ok 0x20 op && rsv_ok 0x10 op) ≡ true
unfolding all_below
rsv_table = refl

len_table : all_below 128 len_ok ≡ true
unfolding all_below
len_table = refl

pub first_byte :
    (fin : Bool) (op : ℕ)
    → op < 16
    → let b = bit_or (if fin then 0x80 else 0x00) op in
      (has_bit b 0x80 ≡ fin)
      × (has_bit b 0x40 ≡ false)
      × (has_bit b 0x20 ≡ false)
      × (has_bit b 0x10 ≡ false)
      × (bit_and b 0xf ≡ op)
first_byte true op h = ground (
  arith,
  all_below_sound 16 fin_ok op fin_table h,
  all_below_sound 16 (λ op. rsv_ok 0x40 op && rsv_ok 0x20 op && rsv_ok 0x10 op) op rsv_table h,
)
first_byte false op h = ground (
  arith,
  all_below_sound 16 fin_ok op fin_table h,
  all_below_sound 16 (λ op. rsv_ok 0x40 op && rsv_ok 0x20 op && rsv_ok 0x10 op) op rsv_table h,
)

pub second_byte :
    (mask : Bool) (len : ℕ)
    → len < 128
    → let b = bit_or (if mask then 0x80 else 0x00) len in
      (has_bit b 0x80 ≡ mask) × (bit_and b 0x7f ≡ len)
second_byte true len h = ground (arith, all_below_sound 128 len_ok len len_table h)
second_byte false len h = ground (arith, all_below_sound 128 len_ok len len_table h)

-- One step of `payload_len = (payload_len << 8) | byte`.
join_step :
    (acc b x : ℕ) → acc ≡ x / 256 → b ≡ x % 256 → x < 2 ^ 64 → bit_or (acc * 2 ^ 8 % 2 ^ 64) b ≡ x
join_step acc b x p q h =
    let small : acc * 2 ^ 8 % 2 ^ 64 ≡ acc * 2 ^ 8 = omega arith in
    rw small (rw (bit_or-shift 8 acc b (omega arith)) (omega arith))

-- The eight bytes of a length stand for it.
pub join_be-split_be : (len : ℕ) → len < 2 ^ 64 → join_be 0 (split_be len) ≡ len
unfolding join_be split_be
join_be-split_be len h = simp mask_8 (
    rw
      (
        join_step 0 (len / 2 ^ 56 % 256) (len / 2 ^ 56) (omega arith) refl (omega arith),
        next (len / 2 ^ 56) (len / 2 ^ 48) (omega arith) (omega arith),
        next (len / 2 ^ 48) (len / 2 ^ 40) (omega arith) (omega arith),
        next (len / 2 ^ 40) (len / 2 ^ 32) (omega arith) (omega arith),
        next (len / 2 ^ 32) (len / 2 ^ 24) (omega arith) (omega arith),
        next (len / 2 ^ 24) (len / 2 ^ 16) (omega arith) (omega arith),
        next (len / 2 ^ 16) (len / 2 ^ 8) (omega arith) (omega arith),
        next (len / 2 ^ 8) (len / 2 ^ 0) (omega arith) (omega arith),
      )
      (omega arith))
  where
    next : (acc x : ℕ) → acc ≡ x / 256 → x < 2 ^ 64 → bit_or (acc * 2 ^ 8 % 2 ^ 64) (x % 256) ≡ x
    next acc x e small = join_step acc (x % 256) x e refl small

or_low : (k q x r : ℕ) → x ≡ q * 2 ^ k → r < 2 ^ k → bit_or x r ≡ x + r
or_low k q x r e h = rw e (bit_or-shift k q r h)

-- The four bytes of a key stand for it.
pub join_key-mask_bytes : (key : ℕ) → key < 2 ^ 32 → join_key (mask_bytes key) ≡ key
unfolding join_key mask_bytes
join_key-mask_bytes key h = simp mask_8 (
    rw
      (
        bit_or-shift 24 (key / 2 ^ 24 % 256) (key / 2 ^ 16 % 256 * 2 ^ 16) (omega arith),
        or_low 16 (key / 2 ^ 16) (key / 2 ^ 24 % 256 * 2 ^ 24 + key / 2 ^ 16 % 256 * 2 ^ 16)
            (key / 2 ^ 8 % 256 * 2 ^ 8) (omega arith) (omega arith),
        or_low 8 (key / 2 ^ 8)
            (key / 2 ^ 24 % 256 * 2 ^ 24 + key / 2 ^ 16 % 256 * 2 ^ 16 + key / 2 ^ 8 % 256 * 2 ^ 8)
            (key % 256) (omega arith) (omega arith),
      )
      (omega arith))
