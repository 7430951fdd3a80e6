-- ===== src/Player/Tests.antt =====
-- The player of src/client.c at concrete inputs.
use rsound.Base.{◌≡◌, refl, ℕ, true, some, Option, List, [], ◌∷◌, replicate}
use rsound.Format.{alaw, of_code}
use rsound.Net.{returned, write_all}
use rsound.Endian.{is_little_endian}
use rsound.Wav.Encode.{Params, header_of}
use rsound.Client.Param.{blank, set_param}
use rsound.Player.{
  Settings, defaults, Choice, raw, rate, bits_of, settings, exit, parse_input, format_option,
  set_rsd_params, wav_format, Setup, ready, send_input,
}
use rsound.Player.Blocks.{SendsBlocks, send_input_lem}

-- "--raw -r 48000 -B S16BE", and a bad format.
abbrev options : List Choice
options =
    raw
    ∷ rate (b'4' ∷ b'8' ∷ b'0' ∷ b'0' ∷ b'0' ∷ [])
    ∷ bits_of (b'S' ∷ b'1' ∷ b'6' ∷ b'B' ∷ b'E' ∷ [])
    ∷ []

abbrev given : Settings
given = record defaults { raw_mode = true; raw_rate = 48000; format = 2; host = b'a' ∷ [] }

parse_input-options : parse_input options ((b'a' ∷ []) ∷ []) ≡ settings given
unfolding parse_input format_option
parse_input-options = refl

parse_input-bad : parse_input (bits_of (b'9' ∷ []) ∷ raw ∷ []) [] ≡ exit 1
unfolding parse_input format_option
parse_input-bad = refl

-- The header of a client with A-law: the player takes the format from the tag 6.
abbrev phone : Params
phone = record { rate = 8000; channels = 1; format = alaw }

abbrev rate_of : Setup → ℕ
rate_of (ready rd) = rd.rate
rate_of _ = 0

set_rsd_params-phone : rate_of (set_rsd_params true defaults blank (header_of true phone)) ≡ 8000
unfolding set_rsd_params set_param wav_format of_code header_of is_little_endian
set_rsd_params-phone = refl

-- 1025 bytes: one block is sent and one byte is not.
abbrev input : List ℕ
input = replicate 1025 7

abbrev sends : List (List (Option ℕ))
sends = (some 1024 ∷ []) ∷ [] ∷ []

input_ends : (send_input input sends).0 ≡ returned 1
unfolding send_input write_all
input_ends = refl

one_byte_left : SendsBlocks input (send_input input sends)
one_byte_left = send_input_lem input sends input_ends
