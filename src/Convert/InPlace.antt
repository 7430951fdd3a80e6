-- ===== src/Convert/InPlace.antt =====
-- The loops of src/audio.c that read and write one buffer at different places: no word is
-- overwritten before it is read.
use mathlib.Core.List.{append-nil, append_assoc}
use rsound.Base.{
  ℕ, zero, suc, ◌+◌, ◌*◌, ◌/◌, ◌^◌, ◌≤◌, ◌<◌, ◌≡◌, refl, sym, ap, ◌∙◌, Bool, true, false, List, [],
  ◌∷◌, ◌++◌, map, none, arith, length, get_or, take, drop, memcpy, length-append,
  drop-length-append, take-length-append, length-take, length-drop, length-memcpy, get_or-take,
  get_or-drop, get_or-memcpy, list_ext, leb, leb→le, Bool-cases, inl, inr,
}
use rsound.Endian.{store16, load32}
use rsound.Convert.Loops.{expand, shrink}
use rsound.Convert.Samples.{words16}

pub length-store16 : (little : Bool) (x : ℕ) → length (store16 little x) ≡ 2
length-store16 true x = refl
length-store16 false x = refl

words16-append :
    (little : Bool) (us vs : List ℕ)
    → words16 little (us ++ vs) ≡ words16 little us ++ words16 little vs
words16-append true [] vs = refl
words16-append false [] vs = refl
words16-append true (u ∷ us) vs = ap (λ l. store16 true u ++ l) (words16-append true us vs)
words16-append false (u ∷ us) vs = ap (λ l. store16 false u ++ l) (words16-append false us vs)

take-suc :
    (k : ℕ) (xs : List ℕ) → k < length xs → take (suc k) xs ≡ take k xs ++ (get_or xs k 0 ∷ [])
take-suc k [] h = absurd (omega arith)
take-suc zero (x ∷ xs) h = refl
take-suc (suc k) (x ∷ xs) h = ap (◌∷◌ x) (take-suc k xs (omega arith))

map-append-one : (g : ℕ → ℕ) (xs : List ℕ) (x : ℕ) → map g (xs ++ (x ∷ [])) ≡ map g xs ++ (g x ∷ [])
map-append-one g [] x = refl
map-append-one g (y ∷ xs) x = ap (◌∷◌ (g y)) (map-append-one g xs x)

-- Where a copy lies beyond the bytes that are looked at, and where they begin with it.
take-memcpy :
    (dest src : List ℕ) (at k : ℕ)
    → at + length src ≤ length dest
    → k ≤ at
    → take k (memcpy dest at src) ≡ take k dest
take-memcpy dest src at k h p =
    list_ext _ _ 0
      (omega (
        arith,
        length-take k (memcpy dest at src),
        length-take k dest,
        length-memcpy dest src at h,
      ))
      (λ i q. ground (
        arith,
        get_or-take k (memcpy dest at src) i 0,
        get_or-take k dest i 0,
        get_or-memcpy dest src at i 0 h,
      ))

drop-memcpy :
    (dest src : List ℕ) (at k : ℕ)
    → at + length src ≤ length dest
    → at + length src ≤ k
    → drop k (memcpy dest at src) ≡ drop k dest
drop-memcpy dest src at k h p =
    list_ext _ _ 0
      (omega (
        arith,
        length-drop k (memcpy dest at src),
        length-drop k dest,
        length-memcpy dest src at h,
      ))
      (λ i q. ground (
        arith,
        get_or-drop k (memcpy dest at src) i 0,
        get_or-drop k dest i 0,
        get_or-memcpy dest src at (k + i) 0 h,
      ))

drop-memcpy_self :
    (dest src : List ℕ) (at : ℕ)
    → at + length src ≤ length dest
    → drop at (memcpy dest at src) ≡ src ++ drop (at + length src) dest
drop-memcpy_self dest src at h =
    let e : length (take at dest) ≡ at = omega (arith, length-take at dest) in
    rw e at (drop-length-append (take at dest) (src ++ drop (at + length src) dest))

take-memcpy_self :
    (dest src : List ℕ) (at : ℕ)
    → at + length src ≤ length dest
    → take (at + length src) (memcpy dest at src) ≡ take at dest ++ src
take-memcpy_self dest src at h =
    let e : length (take at dest ++ src) ≡ at + length src =
      omega (arith, length-append (take at dest) src, length-take at dest) in
    ap (take (at + length src)) (sym (append_assoc (take at dest) src _))
    ∙ (rw e at (take-length-append (take at dest ++ src) (drop (at + length src) dest)))

-- Growing downwards: the first `k` bytes become `k` words.
pub expand_lem :
    (little : Bool) (g : ℕ → ℕ) (k : ℕ) (buf : List ℕ)
    → 2 * k ≤ length buf
    → expand little g buf k ≡ words16 little (map g (take k buf)) ++ drop (2 * k) buf
unfolding expand
expand_lem little g zero buf h = refl
expand_lem little g (suc k) buf h =
    rw (expand_lem little g k next (omega (arith, size, wide)), kept, below)
      (rw (take-suc k buf (omega arith), map-append-one, words16-append)
        (rw (append_assoc, append-nil)
          (ap (λ d. words16 little (map g (take k buf)) ++ (word ++ drop d buf))
            (omega (arith, wide)))))
  where
    word : List ℕ
    word = store16 little (g (get_or buf k 0))

    next : List ℕ
    next = memcpy buf (2 * k) word

    wide : length word ≡ 2
    wide = length-store16 little (g (get_or buf k 0))

    size : length next ≡ length buf
    size = length-memcpy buf word (2 * k) (omega (arith, wide))

    kept : take k next ≡ take k buf
    kept = take-memcpy buf word (2 * k) k (omega (arith, wide)) (omega arith)

    below : drop (2 * k) next ≡ word ++ drop (2 * k + length word) buf
    below = drop-memcpy_self buf word (2 * k) (omega (arith, wide))

-- What a round of the loop stores.
abbrev round_of : Bool → List ℕ → ℕ → List ℕ
round_of little buf i = memcpy buf (2 * i) (store16 little (load32 little buf (4 * i) / 2 ^ 16))

module _ (little : Bool) (buf : List ℕ) (i : ℕ) (fits : 2 * i + 2 ≤ length buf) where
  store_fits : 2 * i + length (store16 little (load32 little buf (4 * i) / 2 ^ 16)) ≤ length buf
  store_fits = omega (arith, length-store16 little (load32 little buf (4 * i) / 2 ^ 16))

  length-round_of : length (round_of little buf i) ≡ length buf
  length-round_of = length-memcpy buf _ (2 * i) store_fits

shrink-none :
    (little : Bool) (n i : ℕ) (buf : List ℕ)
    → 4 * i ≤ length buf
    → length buf < 4 * (i + n)
    → 2 * (i + n) ≤ length buf
    → shrink little buf n i ≡ none
unfolding shrink
shrink-none little zero i buf l h p = absurd (omega arith)
shrink-none little (suc n) i buf l h p = elim (Bool-cases (leb (4 * i + 4) (length buf))) [
  | inl inside ↦
      let size = length-round_of little buf i (omega arith) in
      rw inside (
        shrink-none little n (i + 1) (round_of little buf i)
          (omega (arith, leb→le (4 * i + 4) (length buf) inside, size)) (omega (arith, size))
          (omega (arith, size)))
  | inr outside ↦ rw outside
]

-- `s32_to_s16` is called with the number of bytes as its number of samples. On a buffer of twice
-- as many bytes, as `audio_converter` has, that loop reads outside the buffer, on every input but
-- the empty one and on machines of both byte orders.
pub s32_to_s16_reads_outside :
    (little : Bool) (bytes : ℕ) (buf : List ℕ)
    → 0 < bytes
    → length buf ≡ bytes * 2
    → shrink little buf bytes 0 ≡ none
s32_to_s16_reads_outside little bytes buf h e =
    shrink-none little bytes 0 buf (omega arith) (omega arith) (omega arith)
