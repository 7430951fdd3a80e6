-- ===== src/Proto/Digits.antt =====
-- The decimal texts that src/proto.c and src/librsound/librsound.c print, and what reading them
-- gives.
use native.Mathlib.Nat.{pow-suc}
use rsound.Base.{
  ℕ, zero, suc, ◌+◌, ◌-◌, ◌*◌, ◌/◌, ◌%◌, ◌^◌, ◌<◌, ◌≤◌, ◌≡◌, refl, ap, ◌∙◌, true, false, List, [],
  ◌∷◌, ◌++◌, ltb, take, length, arith, length-append, Bool-cases, inl, inr, if◌then◌else◌,
}
use rsound.Proto.{strstr, digits}
use rsound.Proto.Number.{skip_space, starts_digit, scan, sign, base_of, Number, number, read_digits}
use rsound.Client.Text.{decimal_from}

-- Texts of digits only.
pub data Digits : List ℕ → Type 0 where
  none_left : Digits []
  more : (c : ℕ) (s : List ℕ) → 48 ≤ c → c ≤ 57 → Digits s → Digits (c ∷ s)

pub Digits-append : (s : List ℕ) (c : ℕ) → 48 ≤ c → c ≤ 57 → Digits s → Digits (s ++ (c ∷ []))
Digits-append [] c h k none_left = more c [] h k none_left
Digits-append (d ∷ s) c h k (more _ _ p q r) = more d (s ++ (c ∷ [])) p q (Digits-append s c h k r)

pub decimal_from-Digits : (fuel n : ℕ) → Digits (decimal_from fuel n)
decimal_from-Digits zero n = none_left
decimal_from-Digits (suc fuel) n = elim (Bool-cases (ltb n 10)) [
  | inl one ↦ rw one (more (48 + n) [] (omega arith) (ground arith) none_left)
  | inr many ↦ rw many (
      Digits-append _ (48 + n % 10) (omega arith) (omega arith) (decimal_from-Digits fuel (n / 10)))
]

pub digits-append :
    (s : List ℕ) (m c : ℕ)
    → 48 ≤ c
    → c ≤ 57
    → Digits s
    → digits m (s ++ (c ∷ [])) ≡ digits m s * 10 + (c - 48)
digits-append [] m c h k none_left = ground arith
digits-append (d ∷ s) m c h k (more _ _ p q r) =
    ground (arith, digits-append s (m * 10 + (d - 48)) c h k r)

pub digits-decimal_from : (fuel n : ℕ) → n < 10 ^ fuel → digits 0 (decimal_from fuel n) ≡ n
digits-decimal_from zero n h = omega arith
digits-decimal_from (suc fuel) n h = elim (Bool-cases (ltb n 10)) [
  | inl one ↦ rw one (ground arith)
  | inr many ↦ rw many (
      omega (
        arith,
        digits-append (decimal_from fuel (n / 10)) 0 (48 + n % 10) (omega arith) (omega arith)
            (decimal_from-Digits fuel (n / 10)),
        digits-decimal_from fuel (n / 10) (omega (arith, pow-suc 10 fuel)),
      ))
]

pub strstr-Digits : (c : ℕ) (text s : List ℕ) → 57 < c → Digits s → strstr (c ∷ text) s ≡ false
strstr-Digits c text [] h none_left = refl
strstr-Digits c text (d ∷ s) h (more _ _ p q r) = ground (arith, strstr-Digits c text s h r)

pub length-decimal_from : (fuel n : ℕ) → length (decimal_from fuel n) ≤ fuel
length-decimal_from zero n = omega arith
length-decimal_from (suc fuel) n = ground (
  arith,
  length-decimal_from fuel (n / 10),
  length-append (decimal_from fuel (n / 10)) ((48 + n % 10) ∷ []),
)

pub take_short : (n : ℕ) (xs : List ℕ) → length xs ≤ n → take n xs ≡ xs
take_short zero [] h = refl
take_short (suc n) [] h = refl
take_short zero (x ∷ xs) h = absurd (omega arith)
take_short (suc n) (x ∷ xs) h = ap (◌∷◌ x) (take_short n xs (omega arith))

-- Digits the first of which is not 0.
abbrev pub Leading : List ℕ → Type 0
Leading [] = ⊥
Leading (c ∷ s) = (49 ≤ c) × (c ≤ 57)

Leading-append : (s t : List ℕ) → Leading s → Leading (s ++ t)
Leading-append [] t h = elim h [ ]
Leading-append (c ∷ s) t h = h

pub decimal_from-Leading : (fuel n : ℕ) → 1 ≤ n → n < 10 ^ fuel → Leading (decimal_from fuel n)
decimal_from-Leading zero n h k = absurd (omega arith)
decimal_from-Leading (suc fuel) n h k = elim (Bool-cases (ltb n 10)) [
  | inl one ↦ rw one (omega arith, ground arith)
  | inr many ↦ rw many (
      Leading-append (decimal_from fuel (n / 10)) ((48 + n % 10) ∷ [])
        (decimal_from-Leading fuel (n / 10) (ground arith) (omega (arith, pow-suc 10 fuel))))
]

scan-Digits :
    (n : ℕ) (s rest : List ℕ)
    → Digits s
    → starts_digit 10 rest ≡ false
    → scan 10 n (s ++ rest) ≡ (digits n s, rest)
unfolding scan
scan-Digits n [] [] none_left e = refl
scan-Digits n [] (c ∷ rest) none_left e = ground arith
scan-Digits n (c ∷ s) rest (more _ _ p q r) e =
    ground (arith, scan-Digits (n * 10 + (c - 48)) s rest r e)

-- A number in front of a text that does not go on with a digit, after white space.
pub number-Digits :
    (text s rest : List ℕ)
    → skip_space text ≡ s ++ rest
    → Leading s
    → Digits s
    → starts_digit 10 rest ≡ false
    → number text ≡ record { negative = false; magnitude = digits 0 s; rest = rest }
unfolding number
number-Digits text [] rest e l d h = absurd l
number-Digits text (c ∷ s) rest e (lo, hi) d h =
    let w : List ℕ = c ∷ (s ++ rest) in
    let signed : sign w ≡ (false, w) = ground arith in
    let base : base_of w ≡ (10, w) = ground arith in
    let first : starts_digit 10 w ≡ true = ground arith in
    ap (λ v. read_digits text (sign v).0 (base_of (sign v).1)) e
    ∙ (ap (λ p. read_digits text p.0 (base_of p.1)) signed
        ∙ (ap (read_digits text false) base
            ∙ (ap (λ b. if b then found (scan 10 0 w) else nothing) first
                ∙ ap found (scan-Digits 0 (c ∷ s) rest d h))))
  where
    found : ℕ × List ℕ → Number
    found p = record { negative = false; magnitude = p.0; rest = p.1 }

    nothing : Number
    nothing = record { negative = false; magnitude = 0; rest = text }
