-- ===== src/Convert/LoopLaws.antt =====
-- What the loops of src/audio.c do to the bytes of a list of samples.
use rsound.Base.{
  ℕ, ◌^◌, ◌<◌, ◌≡◌, refl, ap, ap₂, Bool, true, false, not, List, [], ◌∷◌, ◌++◌, map, arith,
}
use rsound.Endian.{store16, store32, load16, load32, swap_endian_16, swap_endian_32}
use rsound.Endian.Laws.{swap_endian_16_lem, swap_endian_32_lem}
use rsound.Convert.Loops.{each16, each32}
use rsound.Convert.Samples.{words16, words32, Below}

load16-store16 : (little : Bool) (x : ℕ) → x < 2 ^ 16 → load16 little (store16 little x) 0 ≡ x
load16-store16 true x h = omega arith
load16-store16 false x h = omega arith

pub load32-store32 : (little : Bool) (x : ℕ) → x < 2 ^ 32 → load32 little (store32 little x) 0 ≡ x
load32-store32 true x h = omega arith
load32-store32 false x h = omega arith

-- A loop over the words of a buffer goes through the samples.
pub each16-words16 :
    (little : Bool) (f : ℕ → ℕ) (vs : List ℕ)
    → Below (2 ^ 16) vs
    → each16 little f (words16 little vs) ≡ words16 little (map f vs)
unfolding each16
each16-words16 little f [] h = refl
each16-words16 true f (v ∷ vs) h = rw (load16-store16 true v h.0, each16-words16 true f vs h.1)
each16-words16 false f (v ∷ vs) h = rw (load16-store16 false v h.0, each16-words16 false f vs h.1)

pub each32-words32 :
    (little : Bool) (f : ℕ → ℕ) (vs : List ℕ)
    → Below (2 ^ 32) vs
    → each32 little f (words32 little vs) ≡ words32 little (map f vs)
unfolding each32
each32-words32 little f [] h = refl
each32-words32 true f (v ∷ vs) h = rw (load32-store32 true v h.0, each32-words32 true f vs h.1)
each32-words32 false f (v ∷ vs) h = rw (load32-store32 false v h.0, each32-words32 false f vs h.1)

swap16_word :
    (host : Bool) (v : ℕ)
    → v < 2 ^ 16
    → store16 host (swap_endian_16 (load16 host (store16 (not host) v) 0)) ≡ store16 host v
swap16_word true v h =
    ap (store16 true)
      (omega (arith, swap_endian_16_lem (load16 true (store16 false v) 0) (omega arith)))
swap16_word false v h =
    ap (store16 false)
      (omega (arith, swap_endian_16_lem (load16 false (store16 true v) 0) (omega arith)))

swap32_word :
    (host : Bool) (v : ℕ)
    → v < 2 ^ 32
    → store32 host (swap_endian_32 (load32 host (store32 (not host) v) 0)) ≡ store32 host v
swap32_word true v h =
    ap (store32 true)
      (omega (arith, swap_endian_32_lem (load32 true (store32 false v) 0) (omega arith)))
swap32_word false v h =
    ap (store32 false)
      (omega (arith, swap_endian_32_lem (load32 false (store32 true v) 0) (omega arith)))

-- Swapping every word of samples in the other byte order gives them in the machine's.
pub each16-swap :
    (host : Bool) (vs : List ℕ)
    → Below (2 ^ 16) vs
    → each16 host swap_endian_16 (words16 (not host) vs) ≡ words16 host vs
unfolding each16
each16-swap true [] h = refl
each16-swap false [] h = refl
each16-swap true (v ∷ vs) h = ap₂ ◌++◌ (swap16_word true v h.0) (each16-swap true vs h.1)
each16-swap false (v ∷ vs) h = ap₂ ◌++◌ (swap16_word false v h.0) (each16-swap false vs h.1)

pub each32-swap :
    (host : Bool) (vs : List ℕ)
    → Below (2 ^ 32) vs
    → each32 host swap_endian_32 (words32 (not host) vs) ≡ words32 host vs
unfolding each32
each32-swap true [] h = refl
each32-swap false [] h = refl
each32-swap true (v ∷ vs) h = ap₂ ◌++◌ (swap32_word true v h.0) (each32-swap true vs h.1)
each32-swap false (v ∷ vs) h = ap₂ ◌++◌ (swap32_word false v h.0) (each32-swap false vs h.1)
