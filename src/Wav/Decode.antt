-- ===== src/Wav/Decode.antt =====
-- `get_wav_header` of src/rsound-common.c: what the server makes of the first 44 bytes.
use rsound.Base.{
  ℕ, ◌%◌, Bool, ◌||◌, not, List, Option, none, some, ◌==◌, ltb, if◌then◌else◌, length,
}
use rsound.Endian.{is_little_endian, load16, load32, swap_endian_16, swap_endian_32}
use rsound.Format.{
  Format, s16_le, s16_be, u16_le, u16_be, u8, s8, alaw, mulaw, s32_le, s32_be, u32_le, u32_be, code,
}

-- `wav_header_t`, less the stream name that nothing sets.
pub record WavHeader : Type 0 where
  pub num_channels : ℕ
  pub sample_rate : ℕ
  pub bits_per_sample : ℕ
  pub rsd_format : Format

-- A word of the header, read natively and swapped on a big-endian machine.
abbrev pub field16 : Bool → List ℕ → ℕ → ℕ
field16 little header at =
    let temp16 = load16 little header at in
    if is_little_endian little == 0 then swap_endian_16 temp16 else temp16

abbrev pub field32 : Bool → List ℕ → ℕ → ℕ
field32 little header at =
    let temp32 = load32 little header at in
    if is_little_endian little == 0 then swap_endian_32 temp32 else temp32

-- The default by the number of bits.
abbrev pub default_format : ℕ → Format
default_format bits = if bits == 16 then s16_le else if bits == 8 then u8 else s16_le

-- The `switch` on the format field, where the PCM field is 0.
abbrev pub format_field : ℕ → ℕ → Format
format_field bits temp_format =
    let default = default_format bits in
    if temp_format == code s16_be
    then (if bits == 16 then s16_be else default)
    else if temp_format == code u16_le
    then (if bits == 16 then u16_le else default)
    else if temp_format == code u16_be
    then (if bits == 16 then u16_be else default)
    else if temp_format == code s8
    then (if bits == 8 then s8 else default)
    else if temp_format == code s32_le
    then (if bits == 32 then s32_le else default)
    else if temp_format == code s32_be
    then (if bits == 32 then s32_be else default)
    else if temp_format == code u32_le
    then (if bits == 32 then u32_le else default)
    else if temp_format == code u32_be
    then (if bits == 32 then u32_be else default)
    else default

unfoldable pub select_format : ℕ → ℕ → ℕ → Format
select_format pcm bits temp_format =
    if pcm == 0
    then format_field bits temp_format
    else if pcm == 6
    then (if bits == 8 then alaw else default_format bits)
    else if pcm == 7
    then (if bits == 8 then mulaw else default_format bits)
    else default_format bits

-- The sanity check; the fields are unsigned.
abbrev pub is_garbage : WavHeader → Bool
is_garbage head =
    head.sample_rate == 0
    || ltb 192000 head.sample_rate
    || not (head.bits_per_sample % 8 == 0)
    || head.bits_per_sample == 0

-- The function after the receive: `header` is what arrived, and `none` is the result -1.
unfoldable pub get_wav_header : Bool → List ℕ → Option WavHeader
get_wav_header little header =
    let bits = field16 little header 34 in
    let head : WavHeader = record {
      num_channels = field16 little header 22;
      sample_rate = field32 little header 24;
      bits_per_sample = bits;
      rsd_format = select_format (field16 little header 20) bits (field16 little header 42);
    } in
    if length header == 44 then (if is_garbage head then none else some head) else none
