-- ===== src/Convert/Tests.antt =====
-- The conversions of src/audio.c at concrete inputs.
use mathlib.Core.Option
use rsound.Base.{ℕ, ◌≡◌, refl, true, List, [], ◌∷◌, some, none, arith, get_or, map}
use rsound.Endian.{is_little_endian, swap_endian_16, swap_endian_32}
use rsound.Format.{u16_be, u32_be}
use rsound.Convert.Tables.{alaw_table, mulaw_table, alaw_linear, mulaw_linear, tables-G711}
use rsound.Convert.Loops.{each16, each32, shrink}
use rsound.Convert.Choose.{converter_fmt_to_s16ne}
use rsound.Convert.Run.{audio_converter}
use rsound.Convert.Samples.{words16}
use rsound.Convert.InPlace.{s32_to_s16_reads_outside}
use rsound.Convert.ToS16.{encode, to_s16, audio_converter-to_s16}

-- Two big-endian unsigned samples, and what the buffer holds beyond them.
abbrev samples : List ℕ
samples = 0x8000_0000 ∷ 0x0001_0203 ∷ []

abbrev junk : List ℕ
junk = 9 ∷ 9 ∷ 9 ∷ 9 ∷ 9 ∷ 9 ∷ 9 ∷ 9 ∷ []

abbrev no_float : ℕ → ℕ
no_float x = 0

abbrev samples16 : List ℕ
samples16 = 0x8000 ∷ 0x0102 ∷ []

abbrev junk16 : List ℕ
junk16 = 9 ∷ 9 ∷ 9 ∷ 9 ∷ []

u16_runs :
    Option.map
      (audio_converter true no_float no_float junk16 (encode u16_be samples16) u16_be)
      (converter_fmt_to_s16ne true u16_be)
    ≡ some (some (0 ∷ 0 ∷ 2 ∷ 0x81 ∷ []))
unfolding audio_converter converter_fmt_to_s16ne is_little_endian each16 swap_endian_16
u16_runs = refl

u32_runs :
    Option.map
      (audio_converter true no_float no_float junk (encode u32_be samples) u32_be)
      (converter_fmt_to_s16ne true u32_be)
    ≡ some none
unfolding audio_converter converter_fmt_to_s16ne is_little_endian each32 swap_endian_32 shrink
u32_runs = refl

audio_converter-to_s16_example :
    Option.map
      (audio_converter true no_float no_float junk16 (encode u16_be samples16) u16_be)
      (converter_fmt_to_s16ne true u16_be)
    ≡ some (some (words16 true (map (to_s16 u16_be) samples16)))
audio_converter-to_s16_example =
    audio_converter-to_s16 no_float no_float true u16_be samples16 junk16 (λ e. cc) (omega arith)
      refl

tables-G711_example :
    (get_or mulaw_table 0x80 0 ≡ mulaw_linear 0x80) × (get_or alaw_table 0x80 0 ≡ alaw_linear 0x80)
tables-G711_example = tables-G711 0x80 (omega arith)

s32_to_s16_reads_outside_example : shrink true junk 4 0 ≡ none
s32_to_s16_reads_outside_example = s32_to_s16_reads_outside true 4 junk (omega arith) refl
