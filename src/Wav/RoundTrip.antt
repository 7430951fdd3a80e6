-- ===== src/Wav/RoundTrip.antt =====
-- What the server of src/rsound-common.c reads from the header that the client of
-- src/librsound/librsound.c writes.
use rsound.Base.{
  ℕ, ◌+◌, ◌*◌, ◌%◌, ◌/◌, ◌^◌, ◌≤◌, ◌<◌, ◌≡◌, refl, ◌≢◌, ◌⊎◌, Bool, true, false, List, some, none,
  arith, get_or, length,
}
use rsound.Endian.{is_little_endian, load16, load32}
use rsound.Endian.Laws.{swap_endian_16_lem, swap_endian_32_lem}
use rsound.Format.{Format, no_fmt, s16_le, code, resolve, to_bytes}
use rsound.Wav.Encode.{Params, pcm_tag, samplesize_u32, header_of}
use rsound.Wav.Decode.{WavHeader, field16, field32, select_format, get_wav_header, is_garbage}
use rsound.Wav.Layout.{riff_header, header_of-eq-riff_header}

field16_lem :
    (little : Bool) (p q : ℕ) (buf : List ℕ) (at : ℕ)
    → get_or buf at 0 ≡ p % 256
    → get_or buf (at + 1) 0 ≡ q % 256
    → field16 little buf at ≡ p % 256 + q % 256 * 256
unfolding is_little_endian
field16_lem true p q buf at hp hq = omega arith
field16_lem false p q buf at hp hq =
    omega (arith, swap_endian_16_lem (load16 false buf at) (omega arith))

field32_lem :
    (little : Bool) (p q r s : ℕ) (buf : List ℕ) (at : ℕ)
    → get_or buf at 0 ≡ p % 256
    → get_or buf (at + 1) 0 ≡ q % 256
    → get_or buf (at + 2) 0 ≡ r % 256
    → get_or buf (at + 3) 0 ≡ s % 256
    → field32 little buf at ≡ p % 256 + q % 256 * 2 ^ 8 + r % 256 * 2 ^ 16 + s % 256 * 2 ^ 24
unfolding is_little_endian
field32_lem true p q r s buf at hp hq hr hs = omega arith
field32_lem false p q r s buf at hp hq hr hs =
    omega (arith, swap_endian_32_lem (load32 false buf at) (omega arith))

-- The server's choice of a format from the three fields that the client fills.
select_format-sent :
    (little : Bool) (f : Format)
    → f ≢ no_fmt
    → select_format
        (pcm_tag f % 2 ^ 16)
        (8 * samplesize_u32 f % 2 ^ 16)
        (code (resolve little f) % 2 ^ 16)
      ≡ resolve little f
unfolding select_format
select_format-sent true no_fmt h = absurd (h refl)
select_format-sent true _ h = refl
select_format-sent false no_fmt h = absurd (h refl)
select_format-sent false _ h = refl

-- The fields that a server of either byte order reads from a client's header.
module _ (client server : Bool) (rd : Params) where
  abbrev sent : List ℕ
  sent = riff_header client rd

  read_pcm : field16 server sent 20 ≡ pcm_tag rd.format % 2 ^ 16
  read_pcm =
      let x = pcm_tag rd.format % 2 ^ 16 in
      omega (arith, field16_lem server x (x / 256) sent 20 refl refl)

  read_channels : field16 server sent 22 ≡ rd.channels % 2 ^ 16
  read_channels =
      let x = rd.channels % 2 ^ 16 in
      omega (arith, field16_lem server x (x / 256) sent 22 refl refl)

  read_rate : field32 server sent 24 ≡ rd.rate % 2 ^ 32
  read_rate =
      let x = rd.rate % 2 ^ 32 in
      omega (
        arith,
        field32_lem server x (x / 2 ^ 8) (x / 2 ^ 16) (x / 2 ^ 24) sent 24 refl refl refl refl,
      )

  read_bits : field16 server sent 34 ≡ 8 * samplesize_u32 rd.format % 2 ^ 16
  read_bits =
      let x = 8 * samplesize_u32 rd.format % 2 ^ 16 in
      omega (arith, field16_lem server x (x / 256) sent 34 refl refl)

  read_format : field16 server sent 42 ≡ code (resolve client rd.format) % 2 ^ 16
  read_format =
      let x = code (resolve client rd.format) % 2 ^ 16 in
      omega (arith, field16_lem server x (x / 256) sent 42 refl refl)

-- The bits per sample of a format that has a size, and that the server accepts them.
bits_ok :
    (f : Format)
    → f ≢ no_fmt
    → (8 * samplesize_u32 f % 2 ^ 16 ≡ 8 * samplesize_u32 f)
      × (8 * samplesize_u32 f % 8 ≡ 0)
      × (0 < samplesize_u32 f)
bits_ok no_fmt h = absurd (h refl)
bits_ok _ h = omega arith

-- For every pair of byte orders of client and server, every format but the absent one, every rate
-- from 1 to 192000 and every channel count of 16 bits, the server reads from the client's header
-- the same rate and channels, 8 times the sample size as bits, and the format that the client's
-- format stands for on the client's machine.
pub get_wav_header-header_of :
    (client server : Bool) (rd : Params)
    → rd.format ≢ no_fmt
    → 0 < rd.rate
    → rd.rate ≤ 192000
    → rd.channels < 2 ^ 16
    → get_wav_header server (header_of client rd)
      ≡ some (record {
        num_channels = rd.channels;
        sample_rate = rd.rate;
        bits_per_sample = 8 * samplesize_u32 rd.format;
        rsd_format = resolve client rd.format;
      })
unfolding get_wav_header
get_wav_header-header_of client server rd hf h0 hr hc =
    rw
      (
        header_of-eq-riff_header client rd,
        read_pcm client server rd,
        read_channels client server rd,
        read_rate client server rd,
        read_bits client server rd,
        read_format client server rd,
        select_format-sent client rd.format hf,
      )
      (ground (arith, bits_ok rd.format hf))

-- Whatever the format and the channels, the server rejects a client's header whose rate is 0 or
-- above 192000.
pub get_wav_header_rejects :
    (client server : Bool) (rd : Params)
    → rd.rate < 2 ^ 32
    → (rd.rate ≡ 0) ⊎ (192000 < rd.rate)
    → get_wav_header server (header_of client rd) ≡ none
unfolding get_wav_header
get_wav_header_rejects client server rd hr h =
    rw (header_of-eq-riff_header client rd, read_rate client server rd) (ground arith)

-- The formats that the server chooses from, by the number of bits.
select_format_fits :
    (pcm bits temp_format : ℕ)
    → (bits ≡ 8 → to_bytes (select_format pcm bits temp_format) ≡ some 1)
      × (bits ≡ 16 → to_bytes (select_format pcm bits temp_format) ≡ some 2)
      × (bits ≡ 32
          → (to_bytes (select_format pcm bits temp_format) ≡ some 4)
            ⊎ (select_format pcm bits temp_format ≡ s16_le))
      × (bits ≢ 8 → bits ≢ 16 → bits ≢ 32 → select_format pcm bits temp_format ≡ s16_le)
unfolding select_format
select_format_fits pcm bits temp_format =
    (λ h. ground arith, λ h. ground arith, λ h. ground arith, λ h k l. ground arith)

get_wav_header-eq-some :
    (little : Bool) (header : List ℕ) {w : WavHeader}
    → get_wav_header little header ≡ some w
    → (length header ≡ 44)
      × (is_garbage w ≡ false)
      × (w.rsd_format
          ≡ select_format (field16 little header 20) w.bits_per_sample (field16 little header 42))
unfolding get_wav_header
get_wav_header-eq-some little header {w} h = ground arith

not_garbage :
    (w : WavHeader)
    → is_garbage w ≡ false
    → (0 < w.sample_rate)
      × (w.sample_rate ≤ 192000)
      × (w.bits_per_sample % 8 ≡ 0)
      × (0 < w.bits_per_sample)
not_garbage w h = ground arith

-- Whatever 44 bytes arrive, a header that the server accepts has a rate from 1 to 192000 and a
-- positive number of whole bytes per sample. Its format has the header's sample size at 8 and at
-- 16 bits; at 32 bits it has 4 bytes or is S16_LE, and at any other number of bits it is S16_LE.
pub get_wav_header_sound :
    (little : Bool) (header : List ℕ) {w : WavHeader}
    → get_wav_header little header ≡ some w
    → (length header ≡ 44)
      × (0 < w.sample_rate)
      × (w.sample_rate ≤ 192000)
      × (w.bits_per_sample % 8 ≡ 0)
      × (0 < w.bits_per_sample)
      × (w.bits_per_sample ≡ 8 → to_bytes w.rsd_format ≡ some 1)
      × (w.bits_per_sample ≡ 16 → to_bytes w.rsd_format ≡ some 2)
      × (w.bits_per_sample ≡ 32 → (to_bytes w.rsd_format ≡ some 4) ⊎ (w.rsd_format ≡ s16_le))
      × (w.bits_per_sample ≢ 8
          → w.bits_per_sample ≢ 16
          → w.bits_per_sample ≢ 32
          → w.rsd_format ≡ s16_le)
get_wav_header_sound little header {w} h =
    let (long, sane, chosen) = get_wav_header-eq-some little header h in
    let pcm = field16 little header 20 in
    let temp = field16 little header 42 in
    let fits = rw (← chosen) at (select_format_fits pcm w.bits_per_sample temp) in
    let (rate_pos, rate_le, whole, bits_pos) = not_garbage w sane in
    (long, rate_pos, rate_le, whole, bits_pos, fits.0, fits.1, fits.2, fits.3)
