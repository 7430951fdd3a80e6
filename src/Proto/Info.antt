-- ===== src/Proto/Info.antt =====
-- src/proto.c: what `get_proto` makes of the query that `rsnd_send_info_query` of
-- src/librsound/librsound.c sends.
use rsound.Base.{
  ℕ, ◌^◌, ◌-◌, ◌<◌, ◌≤◌, ◌≡◌, ◌++◌, ◌∙◌, refl, ap, some, List, [], ◌∷◌, take, arith, ltb, inl, inr,
  Bool-cases, if◌then◌else◌, false,
}
use rsound.Proto.{info, digits, magnitude, strtoull, get_proto, strstr, null_text, stop_text}
use rsound.Proto.Digits.{
  Digits, none_left, more, decimal_from-Digits, digits-decimal_from, strstr-Digits,
  length-decimal_from, take_short,
}
use rsound.Client.Text.{decimal, decimal_int64, info_body, info_word}

strtoull-Digits : (s : List ℕ) → Digits s → strtoull s ≡ magnitude s
strtoull-Digits [] none_left = refl
strtoull-Digits (c ∷ s) (more _ _ p q r) = ground arith

-- The text behind " INFO ".
body_lem :
    (n : ℕ) (s : List ℕ)
    → decimal_int64 n ≡ s
    → take 248 s ≡ s
    → strstr null_text s ≡ false
    → strstr stop_text s ≡ false
    → strtoull s ≡ n
    → get_proto (info_body n) ≡ some (info n)
unfolding get_proto
body_lem n s e whole no_null no_stop value =
    ap (λ t. get_proto (take 254 (info_word ++ t))) e ∙ rw (whole, no_null, no_stop, value) refl

-- The server reads from the query that the client sends, for every 64-bit pattern of the count of
-- written bytes, which is sent as a signed number, the same pattern: one with the sign bit set
-- goes out with a minus and comes back by `strtoull`'s negation.
pub get_proto-info_body : (n : ℕ) → n < 2 ^ 64 → get_proto (info_body n) ≡ some (info n)
get_proto-info_body n h = elim (Bool-cases (ltb n (2 ^ 63))) [
  | inl small ↦
      let d = decimal_from-Digits 20 n in
      let value : digits 0 (decimal n) ≡ n = digits-decimal_from 20 n (omega arith) in
      body_lem n (decimal n) (ap (λ b. if b then decimal n else b'-' ∷ decimal (2 ^ 64 - n)) small)
        (take_short 248 (decimal n) (omega (arith, length-decimal_from 20 n)))
        (strstr-Digits b'N' (b'U' ∷ b'L' ∷ b'L' ∷ []) (decimal n) (omega arith) d)
        (strstr-Digits b'S' (b'T' ∷ b'O' ∷ b'P' ∷ []) (decimal n) (omega arith) d)
        (strtoull-Digits (decimal n) d ∙ omega (arith, value))
  | inr large ↦
      let m = 2 ^ 64 - n in
      let d = decimal_from-Digits 20 m in
      let high : 2 ^ 63 ≤ n = ground arith in
      let value : digits 0 (decimal m) ≡ m = digits-decimal_from 20 m (omega arith) in
      body_lem n (b'-' ∷ decimal m)
        (ap (λ b. if b then decimal n else b'-' ∷ decimal (2 ^ 64 - n)) large)
        (take_short 248 (b'-' ∷ decimal m) (omega (arith, length-decimal_from 20 m)))
        (strstr-Digits b'N' (b'U' ∷ b'L' ∷ b'L' ∷ []) (decimal m) (omega arith) d)
        (strstr-Digits b'S' (b'T' ∷ b'O' ∷ b'P' ∷ []) (decimal m) (omega arith) d)
        (omega (arith, value))
]
