-- ===== src/Proto.antt =====
-- `get_proto` of src/proto.c: what the server makes of the body of a control message. A C string
-- is the list of its characters before the NUL.
pub mod Number
pub mod Digits
pub mod Framing
pub mod Serve
pub mod Reply
pub mod Info
mod Tests
use rsound.Base.{
  ℕ, suc, ◌+◌, ◌-◌, ◌*◌, ◌%◌, ◌^◌, min, Bool, true, false, ◌&&◌, ◌||◌, Option, none, some, List, [],
  ◌∷◌, ◌==◌, leb, if◌then◌else◌, take, drop,
}

-- `rsd_proto_t` as `get_proto` leaves it: the message with the field that goes with it. A client
-- pointer is the bit pattern of an int64_t.
pub data Proto : Type 0 where
  null stop closectl : Proto
  info : ℕ → Proto
  identity : List ℕ → Proto

-- `strstr(s, text) != NULL`
abbrev pub starts_with : List ℕ → List ℕ → Bool
starts_with [] s = true
starts_with (c ∷ text) [] = false
starts_with (c ∷ text) (d ∷ s) = (c == d) && starts_with text s

abbrev pub strstr : List ℕ → List ℕ → Bool
strstr text [] = starts_with text []
strstr text (c ∷ s) = starts_with text (c ∷ s) || strstr text s

-- `while (*rsd_proto_header == ' ') rsd_proto_header++;`
abbrev pub skip_blanks : List ℕ → List ℕ
skip_blanks [] = []
skip_blanks (c ∷ s) = if c == b' ' then skip_blanks s else c ∷ s

-- `strtoull(s, NULL, 10)`: white space, a sign, digits; the largest value where they are too many.
abbrev pub is_space : ℕ → Bool
is_space c = (c == b' ') || (leb 9 c && leb c 13)

abbrev pub digits : ℕ → List ℕ → ℕ
digits n [] = n
digits n (c ∷ s) = if leb 48 c && leb c 57 then digits (n * 10 + (c - 48)) s else n

abbrev pub magnitude : List ℕ → ℕ
magnitude s = min (2 ^ 64 - 1) (digits 0 s)

abbrev pub signed_value : List ℕ → ℕ
signed_value [] = 0
signed_value (c ∷ s) =
    if c == b'-'
    then (2 ^ 64 - magnitude s) % 2 ^ 64
    else if c == b'+'
    then magnitude s
    else magnitude (c ∷ s)

abbrev pub strtoull : List ℕ → ℕ
strtoull [] = 0
strtoull (c ∷ s) = if is_space c then strtoull s else signed_value (c ∷ s)

abbrev pub null_text : List ℕ
null_text = b'N' ∷ b'U' ∷ b'L' ∷ b'L' ∷ []

abbrev pub stop_text : List ℕ
stop_text = b'S' ∷ b'T' ∷ b'O' ∷ b'P' ∷ []

abbrev pub info_text : List ℕ
info_text = b'I' ∷ b'N' ∷ b'F' ∷ b'O' ∷ b' ' ∷ []

abbrev pub identity_text : List ℕ
identity_text = b'I' ∷ b'D' ∷ b'E' ∷ b'N' ∷ b'T' ∷ b'I' ∷ b'T' ∷ b'Y' ∷ b' ' ∷ []

abbrev pub closectl_text : List ℕ
closectl_text = b'C' ∷ b'L' ∷ b'O' ∷ b'S' ∷ b'E' ∷ b'C' ∷ b'T' ∷ b'L' ∷ []

-- The tests of `get_proto` in their order, on a text without leading blanks. The pointer moves on
-- by the length of the word from the start of the text, wherever the word stands.
abbrev pub read_proto : List ℕ → Option Proto
read_proto s =
    if strstr null_text s
    then some null
    else if strstr stop_text s
    then some stop
    else if strstr info_text s
    then some (info (strtoull (drop 5 s)))
    else if strstr identity_text s
    then some (identity (take 255 (drop 9 s)))
    else if strstr closectl_text s
    then some closectl
    else none

-- `get_proto`; `none` is its -1.
unfoldable pub get_proto : List ℕ → Option Proto
get_proto s = read_proto (skip_blanks s)
