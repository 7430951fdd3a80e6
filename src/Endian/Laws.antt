-- ===== src/Endian/Laws.antt =====
-- What the byte swaps of src/endian.c do to the bytes of a word.
use Prim.Native.Nat.{bit_and, bit_or}
use rsound.Base.{ℕ, ◌+◌, ◌*◌, ◌/◌, ◌%◌, ◌^◌, ◌<◌, ◌≡◌, Bool, not, arith}
use rsound.Base.Bits.{
  bit_or_split, bit_or_high_low, bit_or_low_high, bit_and-byte, bit_and_shift8, bit_or-zero,
}
use rsound.Endian.{swap_endian_16, swap_endian_32, store16, store32}

pub swap_endian_16_lem : (x : ℕ) → x < 2 ^ 16 → swap_endian_16 x ≡ x / 2 ^ 8 + x % 256 * 2 ^ 8
unfolding swap_endian_16
swap_endian_16_lem x h = omega (arith, bit_or_low_high 8 x (x / 2 ^ 8) (omega arith))

pub swap_endian_32_lem :
    (x : ℕ)
    → x < 2 ^ 32
    → swap_endian_32 x
      ≡ x / 2 ^ 24 + x / 2 ^ 16 % 256 * 2 ^ 8 + x / 2 ^ 8 % 256 * 2 ^ 16 + x % 256 * 2 ^ 24
unfolding swap_endian_32
swap_endian_32_lem x h =
    rw (second, third, first, middle, top)
      (omega (arith, bit_or_low_high 24 b0 (b1 * 2 ^ 16 + b2 * 2 ^ 8 + b3) (omega arith)))
  where
    b0 : ℕ
    b0 = x % 256

    b1 : ℕ
    b1 = x / 2 ^ 8 % 256

    b2 : ℕ
    b2 = x / 2 ^ 16 % 256

    b3 : ℕ
    b3 = x / 2 ^ 24

    second : bit_and (x * 2 ^ 8 % 2 ^ 32) 0x00ff_0000 ≡ b1 * 2 ^ 16
    second = omega (
      arith,
      bit_and_shift8 (x * 2 ^ 8 % 2 ^ 32) 0xff00,
      bit_and_shift8 (x * 2 ^ 8 % 2 ^ 32 / 256) 0xff,
      bit_and-byte (x * 2 ^ 8 % 2 ^ 32 / 256 / 256),
    )

    third : bit_and (x / 2 ^ 8) 0x0000_ff00 ≡ b2 * 2 ^ 8
    third = omega (arith, bit_and_shift8 (x / 2 ^ 8) 0xff, bit_and-byte (x / 2 ^ 8 / 256))

    first : bit_or b3 (b1 * 2 ^ 16) ≡ b1 * 2 ^ 16 + b3
    first = bit_or_low_high 16 b1 b3 (omega arith)

    middle : bit_or (b1 * 2 ^ 16 + b3) (b2 * 2 ^ 8) ≡ b1 * 2 ^ 16 + b2 * 2 ^ 8 + b3
    middle =
        let eb : b2 * 2 ^ 8 + 0 ≡ b2 * 2 ^ 8 = omega arith in
        let ea : b1 * 256 * 256 + b3 ≡ b1 * 2 ^ 16 + b3 = omega arith in
        omega (
          arith,
          rw (ea, eb) at (bit_or_split 8 (b1 * 256) b2 b3 0 (omega arith) (omega arith)),
          bit_or_high_low 8 b1 b2 (omega arith),
          bit_or-zero b3,
        )

    top : x * 2 ^ 24 % 2 ^ 32 ≡ b0 * 2 ^ 24
    top = omega arith

-- Swapping the bytes of a 16-bit or of a 32-bit word twice gives the word back, and a swap stays
-- within the word's width.
pub swap_endian_invol :
    (x y : ℕ)
    → x < 2 ^ 16
    → y < 2 ^ 32
    → (swap_endian_16 (swap_endian_16 x) ≡ x)
      × (swap_endian_16 x < 2 ^ 16)
      × (swap_endian_32 (swap_endian_32 y) ≡ y)
      × (swap_endian_32 y < 2 ^ 32)
swap_endian_invol x y h k =
    let e16 = swap_endian_16_lem x h in
    let e32 = swap_endian_32_lem y k in
    (
      omega (arith, e16, swap_endian_16_lem (swap_endian_16 x) (omega (arith, e16))),
      omega (arith, e16),
      omega (arith, e32, swap_endian_32_lem (swap_endian_32 y) (omega (arith, e32))),
      omega (arith, e32),
    )

-- Storing a swapped word in one byte order stores the word in the other.
pub store-swap :
    (little : Bool) (x y : ℕ)
    → x < 2 ^ 16
    → y < 2 ^ 32
    → (store16 little (swap_endian_16 x) ≡ store16 (not little) x)
      × (store32 little (swap_endian_32 y) ≡ store32 (not little) y)
store-swap little x y h k = ground (arith, swap_endian_16_lem x h, swap_endian_32_lem y k)
