-- ===== src/Proto/Framing.antt =====
-- The small header "RSD%5d" of src/librsound/librsound.c and src/proto.c: each side reads from it
-- the length that the other side announced.
use rsound.Base.{
  ℕ, ◌+◌, ◌-◌, ◌/◌, ◌%◌, ◌<◌, ◌≤◌, ◌≡◌, refl, ap, ◌∙◌, some, List, [], ◌∷◌, ◌++◌, ltb, min, ◌^◌,
  arith, Bool-cases, inl, inr,
}
use rsound.Base.Int.{pos}
use rsound.Proto.Digits.{Digits, none_left, more, number-Digits, Leading}
use rsound.Proto.{digits}
use rsound.Proto.Number.{number, to_long, skip_space}
use rsound.Proto.Serve.{announced, c_string, to_blank}
use rsound.Client.Text.{small_header, decimal5}
use rsound.Client.Update.{length_of}

-- The number at the end of a text.
long-Digits :
    (text s : List ℕ)
    → skip_space text ≡ s ++ []
    → Leading s
    → Digits s
    → to_long (number text) ≡ pos (min (2 ^ 63 - 1) (digits 0 s))
long-Digits text s e l d = ap to_long (number-Digits text s [] e l d refl)

number-decimal5 : (n : ℕ) → 1 ≤ n → n < 1000 → to_long (number (decimal5 n)) ≡ pos n
number-decimal5 n h k = elim (Bool-cases (ltb n 10)) [
  | inl one ↦
      let below : n < 10 = ground arith in
      rw one (
        long-Digits _ ((48 + n) ∷ []) (ground arith) (omega arith)
          (more _ _ (omega arith) (omega arith) none_left)
        ∙ ap pos (ground arith))
  | inr many ↦ elim (Bool-cases (ltb n 100)) [
    | inl two ↦
        let below : n < 100 = ground arith in
        let above : 10 ≤ n = ground arith in
        rw (many, two)
          (long-Digits _ ((48 + n / 10) ∷ (48 + n % 10) ∷ []) (ground arith) (omega arith) (
              more _ _ (omega arith) (omega arith) (more _ _ (omega arith) (omega arith) none_left))
            ∙ ap pos (ground arith))
    | inr three ↦
        let above : 100 ≤ n = ground arith in
        rw (many, three)
          (long-Digits _ ((48 + n / 100) ∷ (48 + n / 10 % 10) ∷ (48 + n % 10) ∷ []) (ground arith)
              (omega arith)
              (more _ _ (omega arith) (omega arith) (
                more _ _ (omega arith) (omega arith)
                  (more _ _ (omega arith) (omega arith) none_left)))
            ∙ ap pos (ground arith))
  ]
]

c_string-decimal5 : (n : ℕ) → c_string (decimal5 n) ≡ decimal5 n
c_string-decimal5 n = ground arith

to_blank-decimal5 : (n : ℕ) → to_blank (decimal5 n) ≡ decimal5 n
to_blank-decimal5 n = ground arith

-- The server and the client read from a small header the length that it announces.
pub announced-small_header : (n : ℕ) → 1 ≤ n → n < 1000 → announced (small_header n) ≡ some (pos n)
unfolding announced
announced-small_header n h k =
    ap (λ s. some (to_long (number (to_blank s)))) (c_string-decimal5 n)
    ∙ (ap (λ s. some (to_long (number s))) (to_blank-decimal5 n) ∙ ap some (number-decimal5 n h k))

pub length_of-small_header : (n : ℕ) → 1 ≤ n → n < 1000 → length_of (small_header n) ≡ some (pos n)
unfolding length_of
length_of-small_header n h k =
    ap (λ s. some (to_long (number s))) (c_string-decimal5 n) ∙ ap some (number-decimal5 n h k)
