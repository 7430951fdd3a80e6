-- ===== src/Convert/ToS16.antt =====
-- `audio_converter` of src/audio.c with the operations of `converter_fmt_to_s16ne`: samples of any
-- format become 16-bit samples in the machine's byte order.
use mathlib.Core.Option
use rsound.Base.{
  ℕ, ◌+◌, ◌-◌, ◌*◌, ◌/◌, ◌%◌, ◌^◌, ◌≡◌, refl, ap, ◌∙◌, ◌≢◌, ◌&&◌, ◌==◌, ◌<◌, [], ◌∷◌, Bool, true,
  false, List, ◌++◌, map, none, some, Option, arith, length, get_or, take, drop, if◌then◌else◌,
}
use rsound.Endian.{is_little_endian}
use rsound.Format.{
  Format, no_fmt, s16_le, s16_be, u16_le, u16_be, u8, s8, s16_ne, u16_ne, alaw, mulaw, s32_le,
  s32_be, s32_ne, u32_le, u32_be, u32_ne, to_bytes,
}
use rsound.Convert.Tables.{alaw_table, mulaw_table}
use rsound.Convert.Loops.{expand, shrink, each32}
use rsound.Convert.Choose.{converter_fmt_to_s16ne}
use rsound.Convert.Run.{audio_converter}
use rsound.Convert.Samples.{words16, words32, Below}
use rsound.Convert.Stages.{
  swapped16, flipped16, taken16, swapped32, flipped32, shrunk32, expanded8, Below-map,
}
use rsound.Convert.Words.{live_lem, map_ext, map_id, map-map, length-map}

-- The bytes of samples in a format of the server.
abbrev pub encode : Format → List ℕ → List ℕ
encode s16_le vs = words16 true vs
encode u16_le vs = words16 true vs
encode s16_be vs = words16 false vs
encode u16_be vs = words16 false vs
encode s32_le vs = words32 true vs
encode u32_le vs = words32 true vs
encode s32_be vs = words32 false vs
encode u32_be vs = words32 false vs
encode _ vs = vs

-- The numbers of a format's samples.
abbrev pub range : Format → ℕ
range f = elim (to_bytes f) [ none ↦ 0 | some n ↦ 2 ^ (8 * n) ]

-- The 16-bit sample that a sample of each format stands for: an unsigned sample is taken relative
-- to the middle of its range, 8 bits become the high byte, of 32 bits the high half stays, and a
-- companded byte goes by its table.
abbrev pub to_s16 : Format → ℕ → ℕ
to_s16 u16_le v = (v + 2 ^ 15) % 2 ^ 16
to_s16 u16_be v = (v + 2 ^ 15) % 2 ^ 16
to_s16 s32_le v = v / 2 ^ 16
to_s16 s32_be v = v / 2 ^ 16
to_s16 u32_le v = (v + 2 ^ 31) % 2 ^ 32 / 2 ^ 16
to_s16 u32_be v = (v + 2 ^ 31) % 2 ^ 32 / 2 ^ 16
to_s16 u8 v = (v + 2 ^ 7) % 2 ^ 8 * 2 ^ 8
to_s16 s8 v = v * 2 ^ 8
to_s16 alaw v = get_or alaw_table v 0
to_s16 mulaw v = get_or mulaw_table v 0
to_s16 _ v = v

module _ (f16 f32 : ℕ → ℕ) (host : Bool) (vs junk : List ℕ) where
  -- The function with the operations that the format asks for.
  abbrev pub converted : Format → Option (Option (List ℕ))
  converted f =
      Option.map (audio_converter host f16 f32 junk (encode f vs) f) (converter_fmt_to_s16ne host f)

-- A conversion that is found and done.
abbrev done : List ℕ → Option (Option (List ℕ))
done xs = some (some xs)

-- Samples of 16 bits.
module _ (f16 f32 : ℕ → ℕ) (vs junk : List ℕ) (h : Below (2 ^ 16) vs) where
  s16_to_s16 :
      (host order : Bool)
      → converted f16 f32 host vs junk (if order then s16_le else s16_be)
        ≡ some (some (words16 host vs))
  unfolding audio_converter converter_fmt_to_s16ne is_little_endian
  s16_to_s16 true true = refl
  s16_to_s16 false false = refl
  s16_to_s16 true false =
      ap done (rw (swapped16 true vs junk h false) (taken16 true vs junk h false))
  s16_to_s16 false true =
      ap done (rw (swapped16 false vs junk h true) (taken16 false vs junk h true))

  u16_to_s16 :
      (host order : Bool)
      → converted f16 f32 host vs junk (if order then u16_le else u16_be)
        ≡ some (some (words16 host (map (λ v. (v + 2 ^ 15) % 2 ^ 16) vs)))
  unfolding audio_converter converter_fmt_to_s16ne is_little_endian
  u16_to_s16 true true = ap done (flipped16 true vs junk h true)
  u16_to_s16 false false = ap done (flipped16 false vs junk h false)
  u16_to_s16 true false =
      ap done (rw (swapped16 true vs junk h false) (flipped16 true vs junk h false))
  u16_to_s16 false true =
      ap done (rw (swapped16 false vs junk h true) (flipped16 false vs junk h true))

-- Samples of 32 bits: none, or one at least.
wide_empty :
    (f16 f32 : ℕ → ℕ) (host order : Bool) (junk : List ℕ)
    → (converted f16 f32 host [] junk (if order then s32_le else s32_be) ≡ some (some []))
      × (converted f16 f32 host [] junk (if order then u32_le else u32_be) ≡ some (some []))
unfolding audio_converter converter_fmt_to_s16ne is_little_endian each32 shrink
wide_empty f16 f32 true true junk = (refl, refl)
wide_empty f16 f32 true false junk = (refl, refl)
wide_empty f16 f32 false true junk = (refl, refl)
wide_empty f16 f32 false false junk = (refl, refl)

module _ (f16 f32 : ℕ → ℕ) (vs junk : List ℕ) (h : Below (2 ^ 32) vs)
    (some_samples : 0 < length vs) where
  s32_outside :
      (host order : Bool)
      → length junk ≡ length (words32 order vs)
      → converted f16 f32 host vs junk (if order then s32_le else s32_be) ≡ some none
  unfolding audio_converter converter_fmt_to_s16ne is_little_endian
  s32_outside true true room =
      ap some (rw (shrunk32 true vs junk h true vs some_samples room refl) refl)
  s32_outside false false room =
      ap some (rw (shrunk32 false vs junk h false vs some_samples room refl) refl)
  s32_outside true false room = ap some (
      rw (swapped32 true vs junk h false, shrunk32 true vs junk h false vs some_samples room refl)
        refl)
  s32_outside false true room = ap some (
      rw (swapped32 false vs junk h true, shrunk32 false vs junk h true vs some_samples room refl)
        refl)

  flipped_outside :
      (host order : Bool)
      → length junk ≡ length (words32 order vs)
      → shrink host
          (words32 host (map (λ v. (v + 2 ^ 31) % 2 ^ 32) vs) ++ junk)
          (length (words32 order vs))
          0
        ≡ none
  flipped_outside host order room =
      shrunk32 host vs junk h order _ some_samples room (length-map _ vs)

  u32_outside :
      (host order : Bool)
      → length junk ≡ length (words32 order vs)
      → converted f16 f32 host vs junk (if order then u32_le else u32_be) ≡ some none
  unfolding audio_converter converter_fmt_to_s16ne is_little_endian
  u32_outside true true room =
      ap some (rw (flipped32 true vs junk h true, flipped_outside true true room) refl)
  u32_outside false false room =
      ap some (rw (flipped32 false vs junk h false, flipped_outside false false room) refl)
  u32_outside true false room = ap some (
      rw
        (
          swapped32 true vs junk h false,
          flipped32 true vs junk h false,
          flipped_outside true false room,
        )
        refl)
  u32_outside false true room = ap some (
      rw
        (
          swapped32 false vs junk h true,
          flipped32 false vs junk h true,
          flipped_outside false true room,
        )
        refl)

-- Bytes.
module _ (f16 f32 : ℕ → ℕ) (vs junk : List ℕ) (h : Below (2 ^ 8) vs)
    (room : length junk ≡ length vs) where
  alaw_to_s16 :
      (host : Bool)
      → converted f16 f32 host vs junk alaw
        ≡ some (some (words16 host (map (λ b. get_or alaw_table b 0) vs)))
  unfolding audio_converter converter_fmt_to_s16ne is_little_endian
  alaw_to_s16 true = ap done (expanded8 true (λ b. get_or alaw_table b 0) vs vs junk refl room)
  alaw_to_s16 false = ap done (expanded8 false (λ b. get_or alaw_table b 0) vs vs junk refl room)

  mulaw_to_s16 :
      (host : Bool)
      → converted f16 f32 host vs junk mulaw
        ≡ some (some (words16 host (map (λ b. get_or mulaw_table b 0) vs)))
  unfolding audio_converter converter_fmt_to_s16ne is_little_endian
  mulaw_to_s16 true = ap done (expanded8 true (λ b. get_or mulaw_table b 0) vs vs junk refl room)
  mulaw_to_s16 false = ap done (expanded8 false (λ b. get_or mulaw_table b 0) vs vs junk refl room)

  -- A byte shifted into the high half.
  shifted :
      (host : Bool) (ws : List ℕ)
      → Below (2 ^ 8) ws
      → length ws ≡ length vs
      → take (length vs * 2) (expand host (λ x. x * 2 ^ 8 % 2 ^ 16) (ws ++ junk) (length vs))
        ≡ words16 host (map (λ v. v * 2 ^ 8) ws)
  shifted host ws hw same =
      expanded8 host (λ x. x * 2 ^ 8 % 2 ^ 16) vs ws junk same room
      ∙ ap (words16 host)
          (map_ext (λ x. x * 2 ^ 8 % 2 ^ 16) (λ v. v * 2 ^ 8) (2 ^ 8) ws (λ x p. omega arith) hw)

  s8_to_s16 :
      (host : Bool)
      → converted f16 f32 host vs junk s8 ≡ some (some (words16 host (map (λ v. v * 2 ^ 8) vs)))
  unfolding audio_converter converter_fmt_to_s16ne is_little_endian
  s8_to_s16 true = ap done (shifted true vs h refl)
  s8_to_s16 false = ap done (shifted false vs h refl)

  signed_bytes :
      map (λ x. (x + 2 ^ 8 - 2 ^ 7) % 2 ^ 8) (take (length vs) (vs ++ junk))
        ++ drop (length vs) (vs ++ junk)
      ≡ map (λ v. (v + 2 ^ 7) % 2 ^ 8) vs ++ junk
  signed_bytes =
      live_lem (map (λ x. (x + 2 ^ 8 - 2 ^ 7) % 2 ^ 8)) vs _ junk _ refl
        (map_ext _ (λ v. (v + 2 ^ 7) % 2 ^ 8) (2 ^ 8) vs (λ x p. omega arith) h)

  raised :
      (host : Bool)
      → take (length vs * 2) (
          expand host
            (λ x. x * 2 ^ 8 % 2 ^ 16)
            (map (λ v. (v + 2 ^ 7) % 2 ^ 8) vs ++ junk)
            (length vs))
        ≡ words16 host (map (λ v. (v + 2 ^ 7) % 2 ^ 8 * 2 ^ 8) vs)
  raised host =
      shifted host _ (Below-map _ (2 ^ 8) (2 ^ 8) vs (λ x p. omega arith) h) (length-map _ vs)
      ∙ ap (words16 host) (map-map (λ v. (v + 2 ^ 7) % 2 ^ 8) (λ v. v * 2 ^ 8) vs)

  u8_to_s16 :
      (host : Bool)
      → converted f16 f32 host vs junk u8
        ≡ some (some (words16 host (map (λ v. (v + 2 ^ 7) % 2 ^ 8 * 2 ^ 8) vs)))
  unfolding audio_converter converter_fmt_to_s16ne is_little_endian
  u8_to_s16 true = ap done (rw signed_bytes (raised true))
  u8_to_s16 false = ap done (rw signed_bytes (raised false))

-- The formats of 4 bytes.
abbrev pub wide : Format → Bool
wide f = elim (to_bytes f) [ none ↦ false | some n ↦ n == 4 ]

abbrev pub nonempty : List ℕ → Bool
nonempty [] = false
nonempty (v ∷ vs) = true

-- On a machine of either byte order, for every format that the server has a size for, every list
-- of samples in range and a buffer of twice the data's size: `converter_fmt_to_s16ne` finds the
-- operations. With them `audio_converter` is undefined on one or more samples of 4 bytes, where a
-- loop reads outside the buffer; else it leaves in the data the 16-bit sample of each sample, in
-- order and in the machine's byte order, whatever the buffer held.
pub audio_converter-to_s16 :
    (f16 f32 : ℕ → ℕ) (host : Bool) (f : Format) (vs junk : List ℕ)
    → to_bytes f ≢ none
    → Below (range f) vs
    → length junk ≡ length (encode f vs)
    → Option.map (audio_converter host f16 f32 junk (encode f vs) f) (converter_fmt_to_s16ne host f)
      ≡ some (if wide f && nonempty vs then none else some (words16 host (map (to_s16 f) vs)))
audio_converter-to_s16 f16 f32 host no_fmt vs junk hf h room = absurd (hf refl)
audio_converter-to_s16 f16 f32 host s16_ne vs junk hf h room = absurd (hf refl)
audio_converter-to_s16 f16 f32 host u16_ne vs junk hf h room = absurd (hf refl)
audio_converter-to_s16 f16 f32 host s32_ne vs junk hf h room = absurd (hf refl)
audio_converter-to_s16 f16 f32 host u32_ne vs junk hf h room = absurd (hf refl)
audio_converter-to_s16 f16 f32 host s16_le vs junk hf h room =
    rw map_id (s16_to_s16 f16 f32 vs junk h host true)
audio_converter-to_s16 f16 f32 host s16_be vs junk hf h room =
    rw map_id (s16_to_s16 f16 f32 vs junk h host false)
audio_converter-to_s16 f16 f32 host u16_le vs junk hf h room =
    u16_to_s16 f16 f32 vs junk h host true
audio_converter-to_s16 f16 f32 host u16_be vs junk hf h room =
    u16_to_s16 f16 f32 vs junk h host false
audio_converter-to_s16 f16 f32 host s32_le [] junk hf h room = (wide_empty f16 f32 host true junk).0
audio_converter-to_s16 f16 f32 host s32_le (v ∷ vs) junk hf h room =
    s32_outside f16 f32 (v ∷ vs) junk h (omega arith) host true room
audio_converter-to_s16 f16 f32 host s32_be [] junk hf h room =
    (wide_empty f16 f32 host false junk).0
audio_converter-to_s16 f16 f32 host s32_be (v ∷ vs) junk hf h room =
    s32_outside f16 f32 (v ∷ vs) junk h (omega arith) host false room
audio_converter-to_s16 f16 f32 host u32_le [] junk hf h room = (wide_empty f16 f32 host true junk).1
audio_converter-to_s16 f16 f32 host u32_le (v ∷ vs) junk hf h room =
    u32_outside f16 f32 (v ∷ vs) junk h (omega arith) host true room
audio_converter-to_s16 f16 f32 host u32_be [] junk hf h room =
    (wide_empty f16 f32 host false junk).1
audio_converter-to_s16 f16 f32 host u32_be (v ∷ vs) junk hf h room =
    u32_outside f16 f32 (v ∷ vs) junk h (omega arith) host false room
audio_converter-to_s16 f16 f32 host u8 vs junk hf h room = u8_to_s16 f16 f32 vs junk h room host
audio_converter-to_s16 f16 f32 host s8 vs junk hf h room = s8_to_s16 f16 f32 vs junk h room host
audio_converter-to_s16 f16 f32 host alaw vs junk hf h room = alaw_to_s16 f16 f32 vs junk h room host
audio_converter-to_s16 f16 f32 host mulaw vs junk hf h room =
    mulaw_to_s16 f16 f32 vs junk h room host
