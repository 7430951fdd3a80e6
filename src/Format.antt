-- ===== src/Format.antt =====
-- The sample formats: `enum rsd_format` of src/librsound/rsound.h and of src/audio.h, which the
-- client and the server declare with the same values (the server has no native-endian ones).
pub mod Laws
use rsound.Base.{ℕ, Option, none, some, ◌==◌, if◌then◌else◌, Bool}

pub data Format : Type 0 where
  no_fmt s16_le s16_be u16_le u16_be u8 s8 s16_ne u16_ne alaw mulaw : Format
  s32_le s32_be s32_ne u32_le u32_be u32_ne : Format

-- The value of each enumerator.
abbrev pub code : Format → ℕ
code no_fmt = 0x0000
code s16_le = 0x0001
code s16_be = 0x0002
code u16_le = 0x0004
code u16_be = 0x0008
code u8 = 0x0010
code s8 = 0x0020
code s16_ne = 0x0040
code u16_ne = 0x0080
code alaw = 0x0100
code mulaw = 0x0200
code s32_le = 0x0400
code s32_be = 0x0800
code s32_ne = 0x1000
code u32_le = 0x2000
code u32_be = 0x4000
code u32_ne = 0x8000

-- The enumerator of a value, if the value has one.
unfoldable pub of_code : ℕ → Option Format
of_code n =
    if n == 0x0000
    then some no_fmt
    else if n == 0x0001
    then some s16_le
    else if n == 0x0002
    then some s16_be
    else if n == 0x0004
    then some u16_le
    else if n == 0x0008
    then some u16_be
    else if n == 0x0010
    then some u8
    else if n == 0x0020
    then some s8
    else if n == 0x0040
    then some s16_ne
    else if n == 0x0080
    then some u16_ne
    else if n == 0x0100
    then some alaw
    else if n == 0x0200
    then some mulaw
    else if n == 0x0400
    then some s32_le
    else if n == 0x0800
    then some s32_be
    else if n == 0x1000
    then some s32_ne
    else if n == 0x2000
    then some u32_le
    else if n == 0x4000
    then some u32_be
    else if n == 0x8000
    then some u32_ne
    else none

-- `rsnd_format_to_samplesize` of the client; `none` is its -1.
abbrev pub to_samplesize : Format → Option ℕ
to_samplesize s32_le = some 4
to_samplesize s32_be = some 4
to_samplesize s32_ne = some 4
to_samplesize u32_le = some 4
to_samplesize u32_be = some 4
to_samplesize u32_ne = some 4
to_samplesize s16_le = some 2
to_samplesize u16_le = some 2
to_samplesize s16_be = some 2
to_samplesize u16_be = some 2
to_samplesize s16_ne = some 2
to_samplesize u16_ne = some 2
to_samplesize u8 = some 1
to_samplesize s8 = some 1
to_samplesize alaw = some 1
to_samplesize mulaw = some 1
to_samplesize no_fmt = none

-- `rsnd_format_to_bytes` of the server; `none` is its -1, also for a value that it does not list.
abbrev pub to_bytes : Format → Option ℕ
to_bytes s32_le = some 4
to_bytes s32_be = some 4
to_bytes u32_le = some 4
to_bytes u32_be = some 4
to_bytes s16_le = some 2
to_bytes s16_be = some 2
to_bytes u16_le = some 2
to_bytes u16_be = some 2
to_bytes u8 = some 1
to_bytes s8 = some 1
to_bytes alaw = some 1
to_bytes mulaw = some 1
to_bytes _ = none

-- The format that a native-endian one stands for on a machine of the given byte order: the
-- `switch` on `temp_format` in `rsnd_send_header_info`.
abbrev pub resolve : Bool → Format → Format
resolve little s16_ne = if little then s16_le else s16_be
resolve little u16_ne = if little then u16_le else u16_be
resolve little s32_ne = if little then s32_le else s32_be
resolve little u32_ne = if little then u32_le else u32_be
resolve little f = f
