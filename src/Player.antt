-- ===== src/Player.antt =====
-- src/client.c, the player rsdplay: its options, the parameters that it reads from a WAV header, and
-- the loop that sends the input. `getopt_long` and `fopen` are arguments, as is what `send` answers.
mod Blocks
mod Tests
use rsound.Base.{
  ℕ, ◌+◌, ◌-◌, ◌%◌, ◌^◌, Bool, true, false, ◌&&◌, ◌||◌, not, Option, none, some, List, [], ◌∷◌,
  ◌++◌, ◌==◌, ltb, if◌then◌else◌, length, take, drop,
}
use rsound.Base.Int.{ℤ, pos, to_signed}
use rsound.Format.{
  Format, s16_le, s16_be, u16_le, u16_be, s8, u8, alaw, mulaw, s32_le, s32_be, u32_le, u32_be, code,
}
use rsound.Wav.Decode.{field16, field32}
use rsound.Net.{Outcome, pending, failed, returned, Sent, write_all}
use rsound.Proto.{digits}
use rsound.Proto.Number.{skip_space, sign}
use rsound.Client.{Rsound}
use rsound.Client.Param.{set_param, samplerate, channels, format, identity}

-- The globals that the options set; a format is its code, 0 at first.
pub record Settings : Type 0 where
  pub raw_mode : Bool
  pub raw_rate : ℕ
  pub channel : ℕ
  pub format : ℕ
  pub high_latency : Bool
  pub port : List ℕ
  pub host : List ℕ
  pub ident : List ℕ

-- "rsdplay"
abbrev pub defaults : Settings
defaults = record {
  raw_mode = false;
  raw_rate = 44100;
  channel = 2;
  format = 0;
  high_latency = false;
  port = [];
  host = [];
  ident = b'r' ∷ b's' ∷ b'd' ∷ b'p' ∷ b'l' ∷ b'a' ∷ b'y' ∷ [];
}

-- `atoi`, to an unsigned type of `w` bits.
abbrev pub atoi : ℕ → List ℕ → ℕ
atoi w s =
    let (negative, t) = sign (skip_space s) in
    let n = digits 0 t % 2 ^ w in if negative then (2 ^ w - n) % 2 ^ w else n

abbrev pub same_word : List ℕ → List ℕ → Bool
same_word [] [] = true
same_word [] (d ∷ t) = false
same_word (c ∷ s) [] = false
same_word (c ∷ s) (d ∷ t) = (c == d) && same_word s t

-- A letter, digits and a suffix: "S16LE" is `word b'S' (b'1' ∷ b'6' ∷ []) le`.
abbrev pub le : List ℕ
le = b'L' ∷ b'E' ∷ []

abbrev pub be : List ℕ
be = b'B' ∷ b'E' ∷ []

abbrev pub word : ℕ → List ℕ → List ℕ → List ℕ
word c bits suffix = c ∷ (bits ++ suffix)

-- The option -B.
unfoldable pub format_option : List ℕ → Option Format
format_option optarg =
    let bits16 = b'1' ∷ b'6' ∷ [] in
    let bits32 = b'3' ∷ b'2' ∷ [] in
    let bits8 = b'8' ∷ [] in
    let law = b'L' ∷ b'A' ∷ b'W' ∷ [] in
    if same_word (word b'S' bits16 le) optarg || same_word bits16 optarg
    then some s16_le
    else if same_word (word b'S' bits16 be) optarg
    then some s16_be
    else if same_word (word b'U' bits16 le) optarg
    then some u16_le
    else if same_word (word b'U' bits16 be) optarg
    then some u16_be
    else if same_word (word b'S' bits8 []) optarg
    then some s8
    else if same_word (word b'U' bits8 []) optarg || same_word bits8 optarg
    then some u8
    else if same_word (b'A' ∷ law) optarg
    then some alaw
    else if same_word (b'M' ∷ b'U' ∷ law) optarg
    then some mulaw
    else if same_word (word b'S' bits32 le) optarg
    then some s32_le
    else if same_word (word b'S' bits32 be) optarg
    then some s32_be
    else if same_word (word b'U' bits32 le) optarg
    then some u32_le
    else if same_word (word b'U' bits32 be) optarg
    then some u32_be
    else none

-- What `getopt_long` gives in turn; for -f also whether `fopen` succeeds.
pub data Choice : Type 0 where
  raw help invalid other high : Choice
  rate channels_of bits_of port_of host_of ident_of : List ℕ → Choice
  file : Bool → Choice

-- One case of the `switch`: the settings after, or the exit code.
pub data Parsed : Type 0 where
  settings : Settings → Parsed
  exit : ℕ → Parsed

abbrev pub with_format : Settings → Option Format → Parsed
with_format s none = exit 1
with_format s (some f) = settings (record s { format = code f })

abbrev pub choose : Settings → Choice → Parsed
choose s raw = settings (record s { raw_mode = true })
choose s help = exit 0
choose s invalid = exit 1
choose s other = exit 1
choose s high = settings (record s { high_latency = true })
choose s (rate arg) = settings (record s { raw_rate = atoi 32 arg })
choose s (channels_of arg) = settings (record s { channel = atoi 16 arg })
choose s (bits_of arg) = with_format s (format_option arg)
choose s (port_of arg) = settings (record s { port = take 127 arg })
choose s (host_of arg) = settings (record s { host = take 1023 arg })
choose s (ident_of arg) = settings (record s { ident = take 255 arg })
choose s (file true) = settings s
choose s (file false) = exit 1

-- The words that are no options: the last one is the host.
abbrev pub with_words : Settings → List (List ℕ) → Settings
with_words s [] = s
with_words s (arg ∷ args) = with_words (record s { host = take 1023 arg }) args

-- `parse_input`
abbrev pub on_parsed : (Settings → Parsed) → Parsed → Parsed
on_parsed continue (settings s) = continue s
on_parsed continue (exit n) = exit n

abbrev pub parse_from : List (List ℕ) → List Choice → Settings → Parsed
parse_from words [] s = settings (with_words s words)
parse_from words (c ∷ cs) s = on_parsed (parse_from words cs) (choose s c)

unfoldable pub parse_input : List Choice → List (List ℕ) → Parsed
parse_input choices words = parse_from words choices defaults

-- The format of a WAV file, by the bits of a sample and the format tag.
unfoldable pub wav_format : ℕ → ℕ → Option Format
wav_format bits tag =
    if bits == 16
    then some s16_le
    else if (bits == 8) && (tag == 6)
    then some alaw
    else if (bits == 8) && (tag == 7)
    then some mulaw
    else if bits == 8
    then some u8
    else none

-- `set_rsd_params`: the client after, or that no header could be read, or that the program exits.
pub data Setup : Type 0 where
  ready : Rsound → Setup
  unread unsupported : Setup

abbrev pub with_params : Rsound → ℤ → ℤ → ℕ → List ℕ → Rsound
with_params rd speed count fmt ident =
    let rd1 = (set_param rd (samplerate speed)).1 in
    let rd2 = (set_param rd1 (channels count)).1 in
    let rd3 = (set_param rd2 (format (pos fmt))).1 in (set_param rd3 (identity ident)).1

abbrev pub with_wav : Bool → Settings → Rsound → List ℕ → Option Format → Setup
with_wav little s rd buf none = unsupported
with_wav little s rd buf (some f) = ready (
    with_params rd (to_signed 32 (pos (field32 little buf 24))) (pos (field16 little buf 22))
      (code f) s.ident)

unfoldable pub set_rsd_params : Bool → Settings → Rsound → List ℕ → Setup
set_rsd_params little s rd input =
    if s.raw_mode
    then ready (with_params rd (to_signed 32 (pos s.raw_rate)) (pos s.channel) s.format s.ident)
    else if ltb (length input) 44
    then unread
    else with_wav little s rd (take 44 input)
        (wav_format (field16 little (take 44 input) 34) (field16 little (take 44 input) 20))

-- The loop of `main`: blocks of 1024 bytes are read and sent, until a block is not whole or is not
-- sent whole. What is returned is how the last `write_all` ended, and the packets.
abbrev pub after_block : Sent → Sent → Sent
after_block rest (pending, packets) = (pending, packets)
after_block rest (failed, packets) = (failed, packets)
after_block rest (returned n, packets) =
    if n == 0 then (returned 0, packets) else (rest.0, packets ++ rest.1)

unfoldable pub send_input : List ℕ → List (List (Option ℕ)) → Sent
send_input input [] = (pending, [])
send_input input (sends ∷ later) =
    let rest = send_input (drop 1024 input) later in
    if ltb (length input) 1024
    then (returned 1, [])
    else after_block rest (write_all (take 1024 input) 0 sends)
