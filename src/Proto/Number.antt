-- ===== src/Proto/Number.antt =====
-- `strtol(s, &end, 0)` and `strtoull(s, &end, 0)`, with which src/proto.c and
-- src/librsound/librsound.c read numbers.
use rsound.Base.{
  ℕ, ◌+◌, ◌-◌, ◌*◌, Bool, true, false, ◌&&◌, ◌||◌, List, [], ◌∷◌, ◌==◌, ltb, leb, min,
  if◌then◌else◌, ◌^◌, ◌%◌,
}
use rsound.Proto.{is_space}
use rsound.Base.Int.{ℤ, pos, negsuc}

-- Past the white space in front.
abbrev pub skip_space : List ℕ → List ℕ
skip_space [] = []
skip_space (c ∷ s) = if is_space c then skip_space s else c ∷ s

-- The value of a digit or a letter; 36 for any other character.
abbrev pub digit : ℕ → ℕ
digit c =
    if leb 48 c && leb c 57
    then c - 48
    else if leb 97 c && leb c 122
    then c - 87
    else if leb 65 c && leb c 90
    then c - 55
    else 36

abbrev pub starts_digit : ℕ → List ℕ → Bool
starts_digit base [] = false
starts_digit base (c ∷ s) = ltb (digit c) base

-- The digits in front, after those that gave `n`, and what follows them.
unfoldable pub scan : ℕ → ℕ → List ℕ → ℕ × List ℕ
scan base n [] = (n, [])
scan base n (c ∷ s) = if ltb (digit c) base then scan base (n * base + digit c) s else (n, c ∷ s)

-- After a leading 0: the base, and where its digits start.
abbrev pub after_zero : List ℕ → ℕ × List ℕ
after_zero [] = (8, 48 ∷ [])
after_zero (c ∷ s) =
    if ((c == b'x') || (c == b'X')) && starts_digit 16 s then (16, s) else (8, 48 ∷ c ∷ s)

abbrev pub base_of : List ℕ → ℕ × List ℕ
base_of [] = (10, [])
base_of (c ∷ s) = if c == 48 then after_zero s else (10, c ∷ s)

abbrev pub sign : List ℕ → Bool × List ℕ
sign [] = (false, [])
sign (c ∷ s) = if c == b'-' then (true, s) else (false, if c == b'+' then s else c ∷ s)

-- The sign, the digits' value, and the end pointer, which stays at the start without a digit.
pub record Number : Type 0 where
  pub negative : Bool
  pub magnitude : ℕ
  pub rest : List ℕ

abbrev pub read_digits : List ℕ → Bool → ℕ × List ℕ → Number
read_digits s negative (base, v) =
    if starts_digit base v
    then (let (m, rest) = scan base 0 v in
        record { negative = negative; magnitude = m; rest = rest })
    else record { negative = false; magnitude = 0; rest = s }

unfoldable pub number : List ℕ → Number
number s = let (negative, u) = sign (skip_space s) in read_digits s negative (base_of u)

-- The results: a signed long, and an unsigned long long, within their limits.
abbrev pub to_long : Number → ℤ
to_long r =
    if r.negative
    then (if r.magnitude == 0 then pos 0 else negsuc (min (2 ^ 63) r.magnitude - 1))
    else pos (min (2 ^ 63 - 1) r.magnitude)

abbrev pub to_unsigned_long : Number → ℕ
to_unsigned_long r =
    let m = min (2 ^ 64 - 1) r.magnitude in if r.negative then (2 ^ 64 - m) % 2 ^ 64 else m
