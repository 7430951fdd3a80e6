-- ===== src/Client/Text.antt =====
-- The identity message of `rsnd_send_identity_info` in src/librsound/librsound.c.
use rsound.Base.{
  zero, suc, ℕ, ◌+◌, ◌-◌, ◌/◌, ◌%◌, ◌^◌, ◌≤◌, ◌≡◌, List, [], ◌∷◌, ◌++◌, if◌then◌else◌, ltb, length,
  take, arith, length-append, length-take, ◌↔◌,
}

-- "%5d" of a number below 1000.
abbrev pub decimal5 : ℕ → List ℕ
decimal5 n =
    if ltb n 10
    then b' ' ∷ b' ' ∷ b' ' ∷ b' ' ∷ (48 + n) ∷ []
    else if ltb n 100
    then b' ' ∷ b' ' ∷ b' ' ∷ (48 + n / 10) ∷ (48 + n % 10) ∷ []
    else b' ' ∷ b' ' ∷ (48 + n / 100) ∷ (48 + n / 10 % 10) ∷ (48 + n % 10) ∷ []

-- "RSD%5d", the small header of a message, for the length of what follows.
abbrev pub small_header : ℕ → List ℕ
small_header n = b'R' ∷ b'S' ∷ b'D' ∷ decimal5 n

-- " IDENTITY "
abbrev pub identity_word : List ℕ
identity_word = b' ' ∷ b'I' ∷ b'D' ∷ b'E' ∷ b'N' ∷ b'T' ∷ b'I' ∷ b'T' ∷ b'Y' ∷ b' ' ∷ []

-- `tmpbuf`: `snprintf` with room for RSD_PROTO_MAXSIZE - 1 = 255 bytes stores 254 and a NUL.
abbrev pub identity_body : List ℕ → List ℕ
identity_body identity = take 254 (identity_word ++ identity)

-- `sendbuf`
unfoldable pub identity_text : List ℕ → List ℕ
identity_text identity =
    let tmpbuf = identity_body identity in take 254 (small_header (length tmpbuf) ++ tmpbuf)

pub length-small_header : (n : ℕ) → length (small_header n) ≡ 8
length-small_header n = ground arith

-- The message holds all of the body whose length its header announces exactly when the identity
-- has at most 236 characters; of a longer one the end of the body is missing.
pub identity_text_lem :
    (identity : List ℕ)
    → (length (identity_text identity) ≡ 8 + length (identity_body identity))
      ↔ (length identity ≤ 236)
unfolding identity_text
identity_text_lem identity =
    let tmpbuf = identity_body identity in
    let sendbuf = small_header (length tmpbuf) ++ tmpbuf in
    omega (
      arith,
      length-take 254 sendbuf,
      length-append (small_header (length tmpbuf)) tmpbuf,
      length-small_header (length tmpbuf),
      length-take 254 (identity_word ++ identity),
      length-append identity_word identity,
    )

-- The digits of a 64-bit number, at most 20.
abbrev pub decimal_from : ℕ → ℕ → List ℕ
decimal_from zero n = []
decimal_from (suc fuel) n =
    let rest = decimal_from fuel (n / 10) in
    if ltb n 10 then (48 + n) ∷ [] else rest ++ ((48 + n % 10) ∷ [])

abbrev pub decimal : ℕ → List ℕ
decimal n = decimal_from 20 n

-- "%lld" of an int64_t, given by its 64-bit pattern.
abbrev pub decimal_int64 : ℕ → List ℕ
decimal_int64 n = if ltb n (2 ^ 63) then decimal n else b'-' ∷ decimal (2 ^ 64 - n)

-- " INFO "
abbrev pub info_word : List ℕ
info_word = b' ' ∷ b'I' ∷ b'N' ∷ b'F' ∷ b'O' ∷ b' ' ∷ []

-- `tmpbuf` and `sendbuf` of `rsnd_send_info_query`, for the count of written bytes.
abbrev pub info_body : ℕ → List ℕ
info_body n = take 254 (info_word ++ decimal_int64 n)

unfoldable pub info_query : ℕ → List ℕ
info_query n = let tmpbuf = info_body n in take 254 (small_header (length tmpbuf) ++ tmpbuf)
