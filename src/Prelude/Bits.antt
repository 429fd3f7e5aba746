-- ===== src/Prelude/Bits.antt =====
-- `|` of disjoint fields, `&` with a mask of low bits and `^` twice by one key, at every width.
-- The native operations mean `bitwise`, a recursion on binary digits with fuel.
use Prim.Native.Nat.{
  ℕ, zero, suc, ◌+◌, ◌*◌, ◌/◌, ◌%◌, ◌^◌, ◌≤◌, ◌<◌, min, max, differ, digits, bitwise, bit_and,
  bit_or, bit_xor, bit_and-bitwise, bit_or-bitwise, bit_xor-bitwise,
}
use mathlib.Core.Path.{◌≡◌, refl, sym, ap, ◌∙◌}
use mathlib.Core.Bool.{Bool, true, ◌&&◌}
use native.Mathlib.Omega.{arith}
use native.Mathlib.Nat.{pow-suc}

-- The recursion on digits, for any operation `op` on two digits and any result `last` past the end.
module _ (last : ℕ → ℕ) (op : ℕ → ℕ → ℕ) where
  no_digits : (fuel b : ℕ) → digits last op fuel 0 b ≡ last b
  no_digits zero b = refl
  no_digits (suc fuel) b = refl

  -- Any two amounts of fuel that are enough give one result.
  same_digits :
      (a b : ℕ) (left right : ℕ)
      → a ≤ left
      → a ≤ right
      → digits last op left a b ≡ digits last op right a b
  same_digits zero b left right g h = no_digits left b ∙ sym (no_digits right b)
  same_digits (suc a) b zero right g h = absurd (omega arith)
  same_digits (suc a) b (suc left) zero g h = absurd (omega arith)
  same_digits (suc a) b (suc left) (suc right) g h =
      let high = same_digits (suc a / 2) (b / 2) left right (omega arith) (omega arith) in
      ap (λ t. t * 2 + op (suc a % 2) (b % 2)) high

  -- The lowest digit of a positive number, split off.
  low_digit :
      (a b : ℕ)
      → 0 < a
      → bitwise last op a b ≡ bitwise last op (a / 2) (b / 2) * 2 + op (a % 2) (b % 2)
  low_digit zero b h = absurd (omega arith)
  low_digit (suc a) b h =
      let high = same_digits (suc a / 2) (b / 2) a (suc a / 2) (omega arith) (omega arith) in
      ap (λ t. t * 2 + op (suc a % 2) (b % 2)) high

pub low_or : (x y : ℕ) → bit_or x y ≡ max (x % 2) (y % 2) + 2 * bit_or (x / 2) (y / 2)
low_or zero y = simp bit_or-bitwise (omega arith)
low_or (suc x) y =
    let split = low_digit (λ y. y) max (suc x) y (omega arith) in
    simp bit_or-bitwise (omega (arith, split))

pub low_and : (x y : ℕ) → bit_and x y ≡ min (x % 2) (y % 2) + 2 * bit_and (x / 2) (y / 2)
low_and zero y = simp bit_and-bitwise (omega arith)
low_and (suc x) y =
    let split = low_digit (λ y. 0) min (suc x) y (omega arith) in
    simp bit_and-bitwise (omega (arith, split))

pub low_xor : (x y : ℕ) → bit_xor x y ≡ differ (x % 2) (y % 2) + 2 * bit_xor (x / 2) (y / 2)
low_xor zero y = simp bit_xor-bitwise (omega arith)
low_xor (suc x) y =
    let split = low_digit (λ y. y) differ (suc x) y (omega arith) in
    simp bit_xor-bitwise (omega (arith, split))

-- A number beside no digits, by recursion on a bound of it.
or_nothing : (bound a : ℕ) → a ≤ bound → bit_or a 0 ≡ a
or_nothing bound zero h = refl
or_nothing zero (suc a) h = absurd (omega arith)
or_nothing (suc bound) (suc a) h =
    low_or (suc a) 0 ∙ omega (arith, or_nothing bound (suc a / 2) (omega arith))

and_nothing : (bound a : ℕ) → a ≤ bound → bit_and a 0 ≡ 0
and_nothing bound zero h = refl
and_nothing zero (suc a) h = absurd (omega arith)
and_nothing (suc bound) (suc a) h =
    low_and (suc a) 0 ∙ omega (arith, and_nothing bound (suc a / 2) (omega arith))

-- `(q << k) | r` is a sum where `r` fits `k` bits.
pub bit_or-shift : (k q r : ℕ) → r < 2 ^ k → bit_or (q * 2 ^ k) r ≡ q * 2 ^ k + r
bit_or-shift zero q r h =
    rw (let e : r ≡ 0 = omega arith in e)
      (rw (or_nothing (q * 1) (q * 1) (omega arith)) (omega arith))
bit_or-shift (suc k) q r h =
    let double : q * 2 ^ suc k ≡ 2 * (q * 2 ^ k) =
      omega (arith, ap (λ (t : ℕ). q * t) (pow-suc 2 k)) in
    let half : r / 2 < 2 ^ k = omega (arith, pow-suc 2 k) in
    let halved : 2 * (q * 2 ^ k) / 2 ≡ q * 2 ^ k = omega arith in
    rw double (rw (low_or (2 * (q * 2 ^ k)) r, halved, bit_or-shift k q (r / 2) half) (omega arith))

-- `&` with a mask of ones keeps the low bits.
mask_1 : (a : ℕ) → bit_and a 0x1 ≡ a % 2
mask_1 a = omega (arith, low_and a 0x1, and_nothing (a / 2) (a / 2))

mask_2 : (a : ℕ) → bit_and a 0x3 ≡ a % 4
mask_2 a = omega (arith, low_and a 0x3, mask_1 (a / 2))

mask_3 : (a : ℕ) → bit_and a 0x7 ≡ a % 8
mask_3 a = omega (arith, low_and a 0x7, mask_2 (a / 2))

pub mask_4 : (a : ℕ) → bit_and a 0xf ≡ a % 16
mask_4 a = omega (arith, low_and a 0xf, mask_3 (a / 2))

mask_5 : (a : ℕ) → bit_and a 0x1f ≡ a % 32
mask_5 a = omega (arith, low_and a 0x1f, mask_4 (a / 2))

mask_6 : (a : ℕ) → bit_and a 0x3f ≡ a % 64
mask_6 a = omega (arith, low_and a 0x3f, mask_5 (a / 2))

pub mask_7 : (a : ℕ) → bit_and a 0x7f ≡ a % 128
mask_7 a = omega (arith, low_and a 0x7f, mask_6 (a / 2))

pub mask_8 : (a : ℕ) → bit_and a 0xff ≡ a % 256
mask_8 a = omega (arith, low_and a 0xff, mask_7 (a / 2))

differ-differ : (p q : ℕ) → p < 2 → q < 2 → (differ (differ p q) q ≡ p) × (differ p q < 2)
differ-differ zero zero g h = (refl, omega arith)
differ-differ zero (suc zero) g h = (refl, omega arith)
differ-differ (suc zero) zero g h = (refl, omega arith)
differ-differ (suc zero) (suc zero) g h = (refl, omega arith)
differ-differ zero (suc (suc q)) g h = absurd (omega arith)
differ-differ (suc zero) (suc (suc q)) g h = absurd (omega arith)
differ-differ (suc (suc p)) q g h = absurd (omega arith)

bit_xor-cancel_fuel : (n a k : ℕ) → a ≤ n → k ≤ n → bit_xor (bit_xor a k) k ≡ a
bit_xor-cancel_fuel zero a k g h =
    rw (let e : a ≡ 0 = omega arith in e) (rw (let e : k ≡ 0 = omega arith in e) refl)
bit_xor-cancel_fuel (suc n) a k g h =
    let bits = differ-differ (a % 2) (k % 2) (omega arith) (omega arith) in
    let high : bit_xor a k / 2 ≡ bit_xor (a / 2) (k / 2) = omega (arith, low_xor a k, bits) in
    let low : bit_xor a k % 2 ≡ differ (a % 2) (k % 2) = omega (arith, low_xor a k, bits) in
    low_xor (bit_xor a k) k
    ∙ rw (high, low, bits.0, bit_xor-cancel_fuel n (a / 2) (k / 2) (omega arith) (omega arith))
        (omega arith)

-- A second `^` with the same key undoes the first.
pub bit_xor-cancel : (a k : ℕ) → bit_xor (bit_xor a k) k ≡ a
bit_xor-cancel a k = bit_xor-cancel_fuel (a + k) a k (omega arith) (omega arith)

-- Over a small range every value is checked by evaluation.
unfoldable pub all_below : ℕ → (ℕ → Bool) → Bool
all_below zero test = true
all_below (suc bound) test = test bound && all_below bound test

pub all_below_sound :
    (bound : ℕ) (test : ℕ → Bool) (x : ℕ) → all_below bound test ≡ true → x < bound → test x ≡ true
unfolding all_below
all_below_sound zero test x all small = elim small [ ]
all_below_sound (suc bound) test x all small = ground (arith, all_below_sound bound test x)
