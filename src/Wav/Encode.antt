-- ===== src/Wav/Encode.antt =====
-- `rsnd_send_header_info` of src/librsound/librsound.c: the 44 bytes that the client sends first.
use rsound.Base.{
  ℕ, ◌*◌, ◌%◌, ◌^◌, Bool, List, [], ◌∷◌, ◌++◌, none, some, ◌==◌, if◌then◌else◌, memcpy, replicate,
}
use rsound.Endian.{is_little_endian, store16, store32, swap_endian_16, swap_endian_32}
use rsound.Format.{Format, s16_le, u8, alaw, mulaw, code, to_samplesize, resolve}

-- The fields of `rsound_t` that the header is made of: two uint32_t and the format.
pub record Params : Type 0 where
  pub rate : ℕ
  pub channels : ℕ
  pub format : Format

-- The macros LSB16 and LSB32: the word whose native representation is little-endian.
abbrev pub lsb16 : Bool → ℕ → ℕ
lsb16 little x = if is_little_endian little == 0 then swap_endian_16 x else x

abbrev pub lsb32 : Bool → ℕ → ℕ
lsb32 little x = if is_little_endian little == 0 then swap_endian_32 x else x

-- A value in a uint16_t or a uint32_t variable, through LSB and SET: its bytes in the header.
abbrev pub word16 : Bool → ℕ → List ℕ
word16 little x = store16 little (lsb16 little (x % 2 ^ 16))

abbrev pub word32 : Bool → ℕ → List ℕ
word32 little x = store32 little (lsb32 little (x % 2 ^ 32))

-- `strcpy`: the characters and a NUL.
abbrev pub strcpy : List ℕ → ℕ → List ℕ → List ℕ
strcpy header at s = memcpy header at (s ++ (0 ∷ []))

-- `rsnd_format_to_samplesize` as an unsigned word, in which -1 is 2 ^ 32 - 1.
abbrev pub samplesize_u32 : Format → ℕ
samplesize_u32 f = elim (to_samplesize f) [ none ↦ 0xffff_ffff | some n ↦ n ]

-- The value for the PCM field, from the format as it was set.
abbrev pub pcm_tag : Format → ℕ
pcm_tag s16_le = 1
pcm_tag u8 = 1
pcm_tag alaw = 6
pcm_tag mulaw = 7
pcm_tag _ = 0

-- The texts "RIFF", "WAVE", "fmt " and "data".
abbrev pub riff_text : List ℕ
riff_text = b'R' ∷ b'I' ∷ b'F' ∷ b'F' ∷ []

abbrev pub wave_text : List ℕ
wave_text = b'W' ∷ b'A' ∷ b'V' ∷ b'E' ∷ []

abbrev pub fmt_text : List ℕ
fmt_text = b'f' ∷ b'm' ∷ b't' ∷ b' ' ∷ []

abbrev pub data_text : List ℕ
data_text = b'd' ∷ b'a' ∷ b't' ∷ b'a' ∷ []

-- The stores of the function in their order, over the representations of words.
abbrev pub stores : (ℕ → List ℕ) → (ℕ → List ℕ) → List ℕ → Params → Format → List ℕ
stores w16 w32 zero32 rd temp_format =
    let size = samplesize_u32 rd.format in
    let header = replicate 44 0 in
    let header = strcpy header 0 riff_text in
    let header = memcpy header 4 zero32 in
    let header = strcpy header 8 wave_text in
    let header = strcpy header 12 fmt_text in
    let header = memcpy header 16 (w32 16) in
    let header = memcpy header 20 (w16 (pcm_tag rd.format)) in
    let header = memcpy header 22 (w16 rd.channels) in
    let header = memcpy header 24 (w32 rd.rate) in
    let header = memcpy header 28 (w32 (rd.rate * rd.channels * size)) in
    let header = memcpy header 32 (w16 (rd.channels * size)) in
    let header = memcpy header 34 (w16 (8 * size)) in
    let header = strcpy header 36 data_text in memcpy header 42 (w16 (code temp_format))

unfoldable pub header_of : Bool → Params → List ℕ
header_of little rd =
    stores (word16 little) (word32 little) (store32 little 0) rd (resolve little rd.format)
