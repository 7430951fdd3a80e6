-- ===== src/Wav/Tests.antt =====
-- The stream header at concrete inputs: 48 kHz stereo, from a little-endian client to a
-- big-endian server.
use rsound.Base.{◌%◌, ◌≤◌, ◌<◌, ◌≡◌, ◌≢◌, ◌⊎◌, inr, true, false, some, none, arith, length}
use rsound.Format.{s16_le, u16_le, alaw, s32_ne, s32_be, of_code, to_bytes}
use rsound.Format.Laws.{of_code-code}
use rsound.Wav.Encode.{Params, header_of}
use rsound.Wav.Decode.{WavHeader, get_wav_header}
use rsound.Wav.Layout.{riff_header, header_of-eq-riff_header}
use rsound.Wav.RoundTrip.{get_wav_header-header_of, get_wav_header_rejects, get_wav_header_sound}

abbrev stereo : Params
stereo = record { rate = 48000; channels = 2; format = s32_ne }

abbrev too_fast : Params
too_fast = record { rate = 384000; channels = 2; format = alaw }

abbrev received : WavHeader
received = record {
  num_channels = 2;
  sample_rate = 48000;
  bits_per_sample = 32;
  rsd_format = s32_be;
}

get_wav_header-header_of_example : get_wav_header true (header_of false stereo) ≡ some received
get_wav_header-header_of_example =
    get_wav_header-header_of false true stereo (λ e. cc) (omega arith) (omega arith) (omega arith)

get_wav_header_rejects_example : get_wav_header false (header_of true too_fast) ≡ none
get_wav_header_rejects_example =
    get_wav_header_rejects true false too_fast (omega arith) (inr (omega arith))

header_of-eq-riff_header_example : header_of false stereo ≡ riff_header false stereo
header_of-eq-riff_header_example = header_of-eq-riff_header false stereo

get_wav_header_sound_example :
    (length (header_of false stereo) ≡ 44)
    × (0 < received.sample_rate)
    × (received.sample_rate ≤ 192000)
    × (received.bits_per_sample % 8 ≡ 0)
    × (0 < received.bits_per_sample)
    × (received.bits_per_sample ≡ 8 → to_bytes received.rsd_format ≡ some 1)
    × (received.bits_per_sample ≡ 16 → to_bytes received.rsd_format ≡ some 2)
    × (received.bits_per_sample ≡ 32
        → (to_bytes received.rsd_format ≡ some 4) ⊎ (received.rsd_format ≡ s16_le))
    × (received.bits_per_sample ≢ 8
        → received.bits_per_sample ≢ 16
        → received.bits_per_sample ≢ 32
        → received.rsd_format ≡ s16_le)
get_wav_header_sound_example =
    get_wav_header_sound true (header_of false stereo) get_wav_header-header_of_example

of_code-code_example : (of_code 0x0004 ≡ some u16_le) × (0x0004 < 0x1_0000)
of_code-code_example = of_code-code u16_le
