-- ===== src/Endian.antt =====
-- src/endian.c and the copies of its functions in src/librsound/librsound.c: the byte order of
-- the machine, and the byte swaps. The byte order is an argument of the model wherever the code
-- asks `is_little_endian`, so that what is proved holds on both kinds of machine.
pub mod Laws
mod Tests
use Prim.Native.Nat.{bit_and, bit_or}
use rsound.Base.{ℕ, ◌+◌, ◌*◌, ◌/◌, ◌%◌, ◌^◌, Bool, List, [], ◌∷◌, if◌then◌else◌, get_or}

-- The representation of a uint16_t and of a uint32_t in the machine's memory, and back.
abbrev pub store16 : Bool → ℕ → List ℕ
store16 little x = if little then x % 256 ∷ x / 256 % 256 ∷ [] else x / 256 % 256 ∷ x % 256 ∷ []

abbrev pub store32 : Bool → ℕ → List ℕ
store32 little x =
    let b0 = x % 256 in
    let b1 = x / 2 ^ 8 % 256 in
    let b2 = x / 2 ^ 16 % 256 in
    let b3 = x / 2 ^ 24 % 256 in if little then b0 ∷ b1 ∷ b2 ∷ b3 ∷ [] else b3 ∷ b2 ∷ b1 ∷ b0 ∷ []

abbrev pub load16 : Bool → List ℕ → ℕ → ℕ
load16 little buf at =
    let p = get_or buf at 0 in
    let q = get_or buf (at + 1) 0 in if little then p + q * 256 else q + p * 256

abbrev pub load32 : Bool → List ℕ → ℕ → ℕ
load32 little buf at =
    let p = get_or buf at 0 in
    let q = get_or buf (at + 1) 0 in
    let r = get_or buf (at + 2) 0 in
    let s = get_or buf (at + 3) 0 in
    if little
    then p + q * 2 ^ 8 + r * 2 ^ 16 + s * 2 ^ 24
    else s + r * 2 ^ 8 + q * 2 ^ 16 + p * 2 ^ 24

-- `is_little_endian`: the first byte of a uint16_t 1.
unfoldable pub is_little_endian : Bool → ℕ
is_little_endian little = get_or (store16 little 1) 0 0

-- `swap_endian_16`: the operands are of type int, and the assignment truncates.
unfoldable pub swap_endian_16 : ℕ → ℕ
swap_endian_16 x = bit_or (x / 2 ^ 8) (x * 2 ^ 8) % 2 ^ 16

-- `swap_endian_32`: the operands are of type uint32_t.
unfoldable pub swap_endian_32 : ℕ → ℕ
swap_endian_32 x =
    bit_or
      (bit_or (bit_or (x / 2 ^ 24) (bit_and (x * 2 ^ 8 % 2 ^ 32) 0x00ff_0000))
        (bit_and (x / 2 ^ 8) 0x0000_ff00))
      (x * 2 ^ 24 % 2 ^ 32)
