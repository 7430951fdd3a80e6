-- ===== src/Convert/Choose.antt =====
-- `enum rsd_format_conv` of src/audio.h, and `converter_fmt_to_s16ne` and
-- `converter_fmt_to_s32ne` of src/audio.c, which choose the operations for a format.
use Prim.Native.Nat.{bit_and, bit_or}
use rsound.Base.{ℕ, Bool, not, Option, none, some, ◌==◌, if◌then◌else◌}
use rsound.Endian.{is_little_endian}
use rsound.Format.{
  Format, s16_le, s16_be, u16_le, u16_be, u8, s8, alaw, mulaw, s32_le, s32_be, u32_le, u32_be,
}

abbrev pub null_op : ℕ
null_op = 0x0000

abbrev pub s_to_u : ℕ
s_to_u = 0x0001

abbrev pub u_to_s : ℕ
u_to_s = 0x0002

abbrev pub swap_endian : ℕ
swap_endian = 0x0004

abbrev pub alaw_to_s16 : ℕ
alaw_to_s16 = 0x0008

abbrev pub mulaw_to_s16 : ℕ
mulaw_to_s16 = 0x0010

abbrev pub s8_to_s16 : ℕ
s8_to_s16 = 0x0020

abbrev pub s16_to_float : ℕ
s16_to_float = 0x0040

abbrev pub s32_to_float : ℕ
s32_to_float = 0x0080

abbrev pub s32_to_s16 : ℕ
s32_to_s16 = 0x0100

-- A test `operation & flag`.
abbrev pub has : ℕ → ℕ → Bool
has operation flag = not (bit_and operation flag == 0)

-- `if ( [!]is_little_endian() ) conversion |= RSD_SWAP_ENDIAN;`
abbrev pub swap_if_big : Bool → ℕ → ℕ
swap_if_big little op = if is_little_endian little == 0 then bit_or op swap_endian else op

abbrev pub swap_if_little : Bool → ℕ → ℕ
swap_if_little little op = if is_little_endian little == 0 then op else bit_or op swap_endian

-- `none` is the result -1. A case that falls through adds its flag first.
unfoldable pub converter_fmt_to_s16ne : Bool → Format → Option ℕ
converter_fmt_to_s16ne little s32_le = some (swap_if_big little (bit_or null_op s32_to_s16))
converter_fmt_to_s16ne little s16_le = some (swap_if_big little null_op)
converter_fmt_to_s16ne little s32_be = some (swap_if_little little (bit_or null_op s32_to_s16))
converter_fmt_to_s16ne little s16_be = some (swap_if_little little null_op)
converter_fmt_to_s16ne little u32_le =
    some (swap_if_big little (bit_or (bit_or null_op s32_to_s16) u_to_s))
converter_fmt_to_s16ne little u16_le = some (swap_if_big little (bit_or null_op u_to_s))
converter_fmt_to_s16ne little u32_be =
    some (swap_if_little little (bit_or (bit_or null_op s32_to_s16) u_to_s))
converter_fmt_to_s16ne little u16_be = some (swap_if_little little (bit_or null_op u_to_s))
converter_fmt_to_s16ne little u8 = some (bit_or (bit_or null_op u_to_s) s8_to_s16)
converter_fmt_to_s16ne little s8 = some (bit_or null_op s8_to_s16)
converter_fmt_to_s16ne little alaw = some (bit_or null_op alaw_to_s16)
converter_fmt_to_s16ne little mulaw = some (bit_or null_op mulaw_to_s16)
converter_fmt_to_s16ne little _ = none

unfoldable pub converter_fmt_to_s32ne : Bool → Format → Option ℕ
converter_fmt_to_s32ne little s32_le = some (swap_if_big little null_op)
converter_fmt_to_s32ne little s32_be = some (swap_if_little little null_op)
converter_fmt_to_s32ne little u32_le = some (swap_if_big little (bit_or null_op u_to_s))
converter_fmt_to_s32ne little u32_be = some (swap_if_little little (bit_or null_op u_to_s))
converter_fmt_to_s32ne little _ = none
