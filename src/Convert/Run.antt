-- ===== src/Convert/Run.antt =====
-- `audio_converter` of src/audio.c. The local buffer has twice the size of the data; what it holds
-- beyond the data before it is written is the argument `junk`. Floating-point division is the
-- machine's: the arguments `f16` and `f32` give the bit pattern of the float for a sample.
use Prim.Native.Nat.{bit_or}
use rsound.Base.{
  ℕ, ◌+◌, ◌-◌, ◌*◌, ◌/◌, ◌%◌, ◌^◌, Option, Bool, true, false, not, ◌&&◌, ◌||◌, List, map, ◌++◌,
  none, some, ◌==◌, if◌then◌else◌, length, get_or, take, drop,
}
use rsound.Endian.{is_little_endian, swap_endian_16, swap_endian_32}
use rsound.Format.{Format, s16_le, s16_be, u16_be, s32_be, u32_be, code, to_bytes}
use rsound.Convert.Tables.{alaw_table, mulaw_table}
use rsound.Convert.Loops.{each16, each32, expand, expand_float, shrink}
use rsound.Convert.Choose.{
  null_op, s_to_u, u_to_s, swap_endian, alaw_to_s16, mulaw_to_s16, s8_to_s16, s16_to_float,
  s32_to_float, s32_to_s16, has,
}

-- The variables that the function changes.
pub record Work : Type 0 where
  pub buffer : List ℕ
  pub bytes : ℕ
  pub fmt : Format
  pub swapped : Bool

-- `bits == n`, where `bits` is set from the format at the start. (At -1 byte no test holds.)
abbrev pub bits_are : Format → ℕ → Bool
bits_are fmt n = elim (to_bytes fmt) [ none ↦ false | some b ↦ b * 8 == n ]

abbrev pub native_s16 : Bool → Format
native_s16 little = if is_little_endian little == 0 then s16_be else s16_le

-- `(i % 2) == 0`: the format's byte order is not the machine's.
abbrev pub foreign : Bool → Format → Bool
foreign little fmt =
    let big_codes =
      bit_or (bit_or (bit_or (code s16_be) (code u16_be)) (code s32_be)) (code u32_be) in
    let i =
      (if is_little_endian little == 0 then 0 else 1)
      + (if has (code fmt) big_codes then 1 else 0) in
    i % 2 == 0

-- A loop over the words of the live bytes.
abbrev pub live : (List ℕ → List ℕ) → Work → Work
live loop w = record w { buffer = loop (take w.bytes w.buffer) ++ drop w.bytes w.buffer }

module _ (little : Bool) where
  -- A companded byte to a 16-bit sample.
  abbrev pub expand_by : (ℕ → ℕ) → Work → Work
  expand_by g w = record w {
    buffer = expand little g w.buffer w.bytes;
    bytes = w.bytes * 2;
    fmt = native_s16 little;
  }

  abbrev pub swap_bytes : Format → Work → Work
  swap_bytes fmt w =
      if bits_are fmt 16
      then live (each16 little swap_endian_16) w
      else if bits_are fmt 32
      then live (each32 little swap_endian_32) w
      else w

  -- To native byte order.
  abbrev pub to_native : Format → Work → Work
  to_native fmt w =
      if foreign little w.fmt && (bits_are fmt 16 || bits_are fmt 32)
      then record (swap_bytes fmt w) { swapped = true }
      else w

  -- Half the range is added or taken off. In the source `1 << 31` is an int, and the sum is cut to
  -- 32 bits: both signs of 2 ^ 31 give the same word.
  abbrev pub flip_sign : Format → ℕ → Work → Work
  flip_sign fmt operation w =
      if has operation s_to_u
      then (if bits_are fmt 8
          then live (map (λ x. (x + 2 ^ 7) % 2 ^ 8)) w
          else if bits_are fmt 16
          then live (each16 little (λ x. (x + 2 ^ 15) % 2 ^ 16)) w
          else if bits_are fmt 32
          then live (each32 little (λ x. (x + 2 ^ 31) % 2 ^ 32)) w
          else w)
      else if has operation u_to_s
      then (if bits_are fmt 8
          then live (map (λ x. (x + 2 ^ 8 - 2 ^ 7) % 2 ^ 8)) w
          else if bits_are fmt 16
          then live (each16 little (λ x. (x + 2 ^ 16 - 2 ^ 15) % 2 ^ 16)) w
          else if bits_are fmt 32
          then live (each32 little (λ x. (x + 2 ^ 32 - 2 ^ 31) % 2 ^ 32)) w
          else w)
      else w

  abbrev pub narrowed : Work → Option (List ℕ) → Option Work
  narrowed w none = none
  narrowed w (some buffer) =
      some (record w { buffer = buffer; bytes = w.bytes / 2; fmt = native_s16 little })

  -- The source counts the samples of the second loop in bytes.
  abbrev pub change_width : ℕ → Work → Option Work
  change_width operation w =
      if has operation s8_to_s16
      then some (expand_by (λ x. x * 2 ^ 8 % 2 ^ 16) w)
      else if has operation s32_to_s16
      then narrowed w (shrink little w.buffer w.bytes 0)
      else some w

  abbrev pub swap_back : Format → ℕ → Work → Work
  swap_back fmt operation w =
      if has operation swap_endian
      then (if not w.swapped then swap_bytes fmt w else w)
      else if w.swapped
      then swap_bytes fmt w
      else w

  -- The stages behind the change of width.
  abbrev pub last_stages : (ℕ → ℕ) → (ℕ → ℕ) → Format → ℕ → Option Work → Option (List ℕ)
  last_stages f16 f32 format operation none = none
  last_stages f16 f32 format operation (some w) =
      let w = swap_back format operation w in
      let done =
        if has operation s16_to_float
        then record w {
          buffer = expand_float little f16 w.buffer (w.bytes / 2);
          bytes = w.bytes * 2;
        }
        else if has operation s32_to_float
        then live (each32 little f32) w
        else w in
      some (take done.bytes done.buffer)

  -- The value of `audio_converter` where an operation is asked for: the stages in order, and the
  -- live bytes of the buffer at the end.
  abbrev pub stages : (ℕ → ℕ) → (ℕ → ℕ) → Format → ℕ → Work → Option (List ℕ)
  stages f16 f32 format operation w =
      let w = if has operation alaw_to_s16 then expand_by (λ b. get_or alaw_table b 0) w else w in
      let w = if has operation mulaw_to_s16 then expand_by (λ b. get_or mulaw_table b 0) w else w in
      let w = to_native format w in
      let w = flip_sign format operation w in
      last_stages f16 f32 format operation (change_width operation w)

  -- What the function leaves in `data`; `none` where a loop reads outside the buffer.
  unfoldable pub audio_converter :
      (ℕ → ℕ) → (ℕ → ℕ) → List ℕ → List ℕ → Format → ℕ → Option (List ℕ)
  audio_converter f16 f32 junk content format operation =
      let w : Work = record {
        buffer = content ++ junk;
        bytes = length content;
        fmt = format;
        swapped = false;
      } in
      let done = stages f16 f32 format operation w in
      if operation == null_op then some content else done
